-- ===== src/ReturnCode.antt =====
-- The return codes of the library: code/libcpp_assistant/include/cpp_assistant/native/base/
-- ca_return_code.h. `CA_RET(NAME)` is minus the enumerator's value.
pub mod Messages
pub mod Decimal
pub mod Table
mod Examples
use cpp_assistant.Prelude.{ℕ, ◌+◌, ◌-◌, ℤ, pos, negsuc}

-- The enumerators from __USER_RET_CODE_BEGIN on, in their order.
pub data ErrorName : Type 0 where
  null_param file_or_stream_not_open invalid_path signal_registration_failed : ErrorName
  memory_alloc_failed invalid_param_value object_already_exists : ErrorName
  inner_data_struct_error resource_not_available connection_broken : ErrorName
  connection_not_ready excess_object_count operation_timed_out : ErrorName
  object_does_not_exist file_or_stream_open_failed value_out_of_range : ErrorName
  underlying_error stl_error tcp_self_connect path_too_long device_busy : ErrorName
  signal_not_registered invalid_signal_number getting_timezone_failed : ErrorName
  signal_capture_not_allowed space_not_enough pointer_out_of_bound : ErrorName
  operation_already_done cmd_line_param_insufficient unknown_cmd_line_option : ErrorName
  invalid_cmd_line_format invalid_param_type object_mismatched length_too_big : ErrorName
  length_too_small target_not_ready signal_not_arising : ErrorName

abbrev pub user_ret_code_begin : ℕ
user_ret_code_begin = 1001

-- The place of an enumerator behind __USER_RET_CODE_BEGIN.
abbrev pub offset_of : ErrorName → ℕ
offset_of null_param = 0
offset_of file_or_stream_not_open = 1
offset_of invalid_path = 2
offset_of signal_registration_failed = 3
offset_of memory_alloc_failed = 4
offset_of invalid_param_value = 5
offset_of object_already_exists = 6
offset_of inner_data_struct_error = 7
offset_of resource_not_available = 8
offset_of connection_broken = 9
offset_of connection_not_ready = 10
offset_of excess_object_count = 11
offset_of operation_timed_out = 12
offset_of object_does_not_exist = 13
offset_of file_or_stream_open_failed = 14
offset_of value_out_of_range = 15
offset_of underlying_error = 16
offset_of stl_error = 17
offset_of tcp_self_connect = 18
offset_of path_too_long = 19
offset_of device_busy = 20
offset_of signal_not_registered = 21
offset_of invalid_signal_number = 22
offset_of getting_timezone_failed = 23
offset_of signal_capture_not_allowed = 24
offset_of space_not_enough = 25
offset_of pointer_out_of_bound = 26
offset_of operation_already_done = 27
offset_of cmd_line_param_insufficient = 28
offset_of unknown_cmd_line_option = 29
offset_of invalid_cmd_line_format = 30
offset_of invalid_param_type = 31
offset_of object_mismatched = 32
offset_of length_too_big = 33
offset_of length_too_small = 34
offset_of target_not_ready = 35
offset_of signal_not_arising = 36

-- `CA_RET(NAME)`, a negative number: `negsuc n` is -(n + 1).
abbrev pub ca_ret : ErrorName → ℤ
ca_ret e = negsuc (user_ret_code_begin + offset_of e - 1)

abbrev pub ca_ret_ok : ℤ
ca_ret_ok = pos 0

-- CA_RET_GENERAL_FAILURE.
abbrev pub general_failure : ℤ
general_failure = negsuc 0
