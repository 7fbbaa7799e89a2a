-- ===== src/Harness/SectionName.antt =====
-- `section_name` of tests/common/section_name_builder.h. `StringMaker<T>::convert` is the test
-- framework's: what it returns is an argument.
use sycl_cts.Reference.ResultRef.{is_empty}
use sycl_cts.Prelude.{[], drop, if◌then◌else◌, length, take, ℕ, ◌++◌, ◌+◌, ◌∷◌}
use sycl_cts.Devices.Text.{Text, text}
pub mod Laws

-- `std::ostringstream`: its characters and the position of the next write. A write replaces what
-- stands at its position and goes on behind the end.
pub record OutputStream : Type 0 where
  pub buffer : Text
  pub position : ℕ

abbrev pub empty_stream : OutputStream
empty_stream = record { buffer = []; position = 0 }

-- `std::ostringstream(text)`, in the default mode, which writes from the start.
abbrev pub stream_of : Text → OutputStream
stream_of s = record { buffer = s; position = 0 }

pub write : OutputStream → Text → OutputStream
write out s = record {
  buffer = take out.position out.buffer ++ s ++ drop (out.position + length s) out.buffer;
  position = out.position + length s;
}

pub record SectionName : Type 0 where
  pub m_description : Text
  pub m_parameters : OutputStream

-- `section_name(description)`
pub section_name : Text → SectionName
section_name description = record { m_description = description; m_parameters = empty_stream }

-- `section_name(const section_name& other)`
pub copy : SectionName → SectionName
copy other = record {
  m_description = other.m_description;
  m_parameters = stream_of other.m_parameters.buffer;
}

-- `with(name, value)`: five writes.
pub with_param : Text → Text → SectionName → SectionName
unfolding write
with_param name value s = record s {
  m_parameters =
      write (write (write (write (write s.m_parameters (text " ")) name) (text ": ")) value)
        (text ",");
}

-- A backspace, a blank and a backspace.
abbrev pub erase_comma : Text
erase_comma = 8 ∷ 32 ∷ 8 ∷ []

pub create : SectionName → Text
create s =
    if is_empty s.m_parameters.buffer
    then s.m_description
    else s.m_description ++ text " with" ++ s.m_parameters.buffer ++ erase_comma
