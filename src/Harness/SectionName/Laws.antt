-- ===== src/Harness/SectionName/Laws.antt =====
-- What the writes into a section name leave, and `with` and `create`.
use mathlib.Core.List.{append-nil, append_assoc}
use sycl_cts.Reference.ResultRef.{is_empty}
use sycl_cts.Prelude.{
  [], ap, arith, drop, false, length, length-append, refl, suc, sym, take, take-append, zero, ℕ,
  ◌++◌, ◌+◌, ◌∙◌, ◌∷◌, ◌≡◌, ◌≤◌,
}
use sycl_cts.Devices.Text.{Text, text}
use sycl_cts.Harness.SectionName.{
  OutputStream, SectionName, copy, create, erase_comma, stream_of, with_param, write,
}

-- Every write so far went to the end: so it is after the constructor and after `with`.
abbrev pub IsAtEnd : SectionName → Type 0
IsAtEnd s = s.m_parameters.position ≡ length s.m_parameters.buffer

take-length : (s : Text) → take (length s) s ≡ s
take-length [] = refl
take-length (c ∷ s) = ap (◌∷◌ c) (take-length s)

drop-beyond : (n : ℕ) (s : Text) → length s ≤ n → drop n s ≡ []
drop-beyond zero [] h = refl
drop-beyond zero (c ∷ s) h = absurd (omega arith)
drop-beyond (suc n) [] h = refl
drop-beyond (suc n) (c ∷ s) h = drop-beyond n s (omega arith)

take-within : (n : ℕ) (s t : Text) → n ≡ length s → take n (s ++ t) ≡ s
take-within n s t e = rw (e) (take-append s t)

drop-append : (s t : Text) → drop (length s) (s ++ t) ≡ t
drop-append [] t = refl
drop-append (c ∷ s) t = drop-append s t

drop-add : (m n : ℕ) (s : Text) → drop (m + n) s ≡ drop n (drop m s)
drop-add zero n s = ap (λ k. drop k s) (omega arith)
drop-add (suc m) n [] = drop_nil (suc m + n) ∙ sym (drop_nil n)
  where
    drop_nil : (k : ℕ) → ◌≡◌ {A = Text} (drop k []) []
    drop_nil zero = refl
    drop_nil (suc k) = refl
drop-add (suc m) n (c ∷ s) = ap (λ k. drop k (c ∷ s)) suc_sum ∙ drop-add m n s
  where
    suc_sum : suc m + n ≡ suc (m + n)
    suc_sum = omega arith

length-take_within : (n : ℕ) (s : Text) → n ≤ length s → length (take n s) ≡ n
length-take_within zero s h = refl
length-take_within (suc n) [] h = absurd (omega arith)
length-take_within (suc n) (c ∷ s) h = ap suc (length-take_within n s (omega arith))

-- The position stays within the text.
abbrev IsWithin : OutputStream → Type 0
IsWithin out = out.position ≤ length out.buffer

write-IsWithin : (out : OutputStream) (s : Text) → IsWithin out → IsWithin (write out s)
unfolding write
write-IsWithin out s h = omega (
  arith,
  length-append (take out.position out.buffer ++ s) (drop (out.position + length s) out.buffer),
  length-append (take out.position out.buffer) s,
  length-take_within out.position out.buffer h,
)

-- Two writes are one.
write-write :
    (out : OutputStream) (s t : Text) → IsWithin out → write (write out s) t ≡ write out (s ++ t)
unfolding write
write-write out s t h = λ i. record { buffer = same_buffer i; position = same_position i }
  where
    front : Text
    front = take out.position out.buffer

    back : Text
    back = drop (out.position + length s) out.buffer

    front_length : length (front ++ s) ≡ out.position + length s
    front_length =
        omega (arith, length-append front s, length-take_within out.position out.buffer h)

    same_position : out.position + length s + length t ≡ out.position + length (s ++ t)
    same_position = omega (arith, length-append s t)

    taken : take (out.position + length s) (front ++ s ++ back) ≡ front ++ s
    taken = take-within (out.position + length s) (front ++ s) back (sym front_length)

    dropped :
        drop (out.position + length s + length t) (front ++ s ++ back)
        ≡ drop (out.position + length (s ++ t)) out.buffer
    dropped =
        drop-add (out.position + length s) (length t) (front ++ s ++ back)
        ∙ ap (drop (length t)) (
            ap (λ k. drop k (front ++ s ++ back)) (sym front_length)
            ∙ drop-append (front ++ s) back)
        ∙ sym (drop-add (out.position + length s) (length t) out.buffer)
        ∙ ap (λ k. drop k out.buffer) same_position

    same_buffer :
        take (out.position + length s) (front ++ s ++ back)
          ++ t
          ++ drop (out.position + length s + length t) (front ++ s ++ back)
        ≡ (front ++ (s ++ t)) ++ drop (out.position + length (s ++ t)) out.buffer
    same_buffer = rw (taken, dropped) (simp append_assoc)

-- What `with` writes.
abbrev pub entry : Text → Text → Text
entry name value = text " " ++ name ++ text ": " ++ value ++ text ","

with_param-write :
    (name value : Text) (s : SectionName)
    → IsWithin s.m_parameters
    → (with_param name value s).m_parameters ≡ write s.m_parameters (entry name value)
unfolding with_param
with_param-write name value s h =
    ap (λ o. write (write (write o (text ": ")) value) (text ","))
      (write-write s.m_parameters (text " ") name h)
    ∙ ap (λ o. write (write o value) (text ","))
        (write-write s.m_parameters (text " " ++ name) (text ": ") h)
    ∙ ap (λ o. write o (text ","))
        (write-write s.m_parameters (text " " ++ name ++ text ": ") value h)
    ∙ write-write s.m_parameters (text " " ++ name ++ text ": " ++ value) (text ",") h

write-end :
    (out : OutputStream) (s : Text)
    → out.position ≡ length out.buffer
    → (write out s).buffer ≡ out.buffer ++ s
unfolding write
write-end out s e =
    rw
      (
        e,
        take-length out.buffer,
        drop-beyond (length out.buffer + length s) out.buffer (omega arith),
      )
      (append-nil (out.buffer ++ s))

write-end_position :
    (out : OutputStream) (s : Text)
    → out.position ≡ length out.buffer
    → (write out s).position ≡ length (write out s).buffer
write-end_position out s e =
    unfold write in omega (arith, e, ap length (write-end out s e), length-append out.buffer s)

is_empty-append : (b : Text) (c : ℕ) (rest : Text) → is_empty (b ++ c ∷ rest) ≡ false
is_empty-append [] c rest = refl
is_empty-append (x ∷ b) c rest = refl

create_lem :
    (s : SectionName) (shown : Text)
    → s.m_parameters.buffer ≡ shown
    → is_empty shown ≡ false
    → create s ≡ s.m_description ++ text " with" ++ shown ++ erase_comma
unfolding create
create_lem s shown e f = rw (e, f)

-- `with` on a name whose writes all went to the end puts one more parameter behind the others, so
-- that `create` shows every one of them in order, and the next one goes to the end again.
pub create-with_param :
    (name value : Text) (s : SectionName)
    → IsAtEnd s
    → (create (with_param name value s)
        ≡ s.m_description
          ++ text " with"
          ++ (s.m_parameters.buffer ++ entry name value)
          ++ erase_comma)
      × IsAtEnd (with_param name value s)
create-with_param name value s h = (
  unfold with_param in
      create_lem (with_param name value s) (s.m_parameters.buffer ++ entry name value) grown
        (is_empty-append s.m_parameters.buffer 32 (drop 1 (entry name value))),
  rw written (write-end_position s.m_parameters (entry name value) h),
)
  where
    written : (with_param name value s).m_parameters ≡ write s.m_parameters (entry name value)
    written = with_param-write name value s (omega arith)

    grown :
        (with_param name value s).m_parameters.buffer ≡ s.m_parameters.buffer ++ entry name value
    grown =
        ap (λ (o : OutputStream). o.buffer) written ∙ write-end s.m_parameters (entry name value) h

write-start : (b s : Text) → (write (stream_of b) s).buffer ≡ s ++ drop (length s) b
unfolding write
write-start b s = ap (λ n. s ++ drop n b) (omega arith)

-- On a copy, `with` writes over the parameters of the original from their start: what is left of
-- them is only what its own text does not reach.
with_param-copy :
    (name value : Text) (s : SectionName)
    → (with_param name value (copy s)).m_parameters.buffer
      ≡ entry name value ++ drop (length (entry name value)) s.m_parameters.buffer
with_param-copy name value s =
    unfold copy in
    ap (λ (o : OutputStream). o.buffer) (with_param-write name value (copy s) (omega arith))
    ∙ write-start s.m_parameters.buffer (entry name value)
