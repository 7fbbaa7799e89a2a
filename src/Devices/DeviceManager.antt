-- ===== src/Devices/DeviceManager.antt =====
-- The texts of util/device_manager.cpp. The queries of the chosen device and of its platform are a
-- record.
pub mod Laws
use sycl_cts.Devices.Text.{Text, text}
use sycl_cts.Prelude.{Bool, if◌then◌else◌, ◌++◌}

-- sycl::info::device_type
pub data DeviceType : Type 0 where
  host cpu_type gpu_type accelerator_type custom_type automatic all_types : DeviceType

unfoldable pub get_device_type_str : DeviceType → Text
get_device_type_str host = text "host"
get_device_type_str cpu_type = text "cpu"
get_device_type_str gpu_type = text "gpu"
get_device_type_str accelerator_type = text "accelerator"
get_device_type_str custom_type = text "custom"
get_device_type_str automatic = text "automatic"
get_device_type_str all_types = text "all"

-- The `switch` of dump_info.
unfoldable pub dumped_type : DeviceType → Text
dumped_type host = text "device_type::host"
dumped_type cpu_type = text "device_type::cpu"
dumped_type gpu_type = text "device_type::gpu"
dumped_type accelerator_type = text "device_type::accelerator"
dumped_type custom_type = text "device_type::custom"
dumped_type automatic = text "device_type::automatic"
dumped_type all_types = text "device_type::all"

pub record ChosenDevice : Type 0 where
  pub name : Text
  pub vendor : Text
  pub device_type : DeviceType
  pub version : Text
  pub has_fp16 : Bool
  pub has_fp64 : Bool
  pub has_atomic64 : Bool
  pub platform_name : Text
  pub platform_vendor : Text
  pub platform_version : Text

unfoldable pub supported : Bool → Text
supported has = if has then text "Supported" else text "Not Supported"

-- What the file holds.
unfoldable pub dump_info : ChosenDevice → Text
dump_info d =
    text "{\"device-name\": \""
    ++ d.name
    ++ text "\", \"device-vendor\": \""
    ++ d.vendor
    ++ text "\", \"device-type\": \""
    ++ dumped_type d.device_type
    ++ text "\", \"device-version\": \""
    ++ d.version
    ++ text "\", \"device-fp16\": \""
    ++ supported d.has_fp16
    ++ text "\", \"device-fp64\": \""
    ++ supported d.has_fp64
    ++ text "\", \"device-atomic64\": \""
    ++ supported d.has_atomic64
    ++ text "\", \"platform-name\": \""
    ++ d.platform_name
    ++ text "\", \"platform-vendor\": \""
    ++ d.platform_vendor
    ++ text "\", \"platform-version\": \""
    ++ d.platform_version
    ++ text "\"}"
