-- ===== src/Util.antt =====
-- Small utilities of the suite: random data of util/math_helper.cpp, the names of util/type_names.h
-- and util/kernel_names.h, and util/singleton.h.
pub mod Random
pub mod KernelName
pub mod Singleton
pub mod TypeName
