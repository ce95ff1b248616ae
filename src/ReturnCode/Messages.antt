-- ===== src/ReturnCode/Messages.antt =====
-- The messages of the return codes: code/libcpp_assistant/src/native/base/ca_return_code.cpp.
use cpp_assistant.Prelude.{
  ℕ, zero, suc, ◌+◌, ◌-◌, ◌/◌, ◌%◌, Option, some, List, [], ◌∷◌, ◌++◌, length, take, get_elem?, ℤ,
  pos, negsuc, if◌then◌else◌, ltb, codes, ◌>>=◌,
}
use cpp_assistant.ReturnCode.{user_ret_code_begin}

abbrev pub Message : Type 0
Message = List ℕ

-- __USER_RET_CODE_END.
abbrev pub user_ret_code_end : ℕ
user_ret_code_end = 1038

-- S_DESCRIPTIONS.
abbrev pub descriptions : List Message
descriptions =
    codes "Null parameters"
    ∷ codes "File or stream not open"
    ∷ codes "Invalid path"
    ∷ codes "Signal registration failed"
    ∷ codes "Memory allocation failed"
    ∷ codes "Invalid parameter values"
    ∷ codes "Object already exists"
    ∷ codes "Inner data structure error"
    ∷ codes "Resource not available"
    ∷ codes "Connection broken"
    ∷ codes "Connection not ready"
    ∷ codes "Excess object count"
    ∷ codes "Operation timed out"
    ∷ codes "Object does not exist"
    ∷ codes "Failed to open file or stream"
    ∷ codes "Value out of range"
    ∷ codes "Underlying error"
    ∷ codes "STL error"
    ∷ codes "TCP self-connection"
    ∷ codes "Path too long"
    ∷ codes "Device busy"
    ∷ codes "Signal not registered"
    ∷ codes "Invalid signal"
    ∷ codes "Failed to get time zone"
    ∷ codes "Signal capture not allowed"
    ∷ codes "Space not enough"
    ∷ codes "Pointer out of bound"
    ∷ codes "Operation already done"
    ∷ codes "Command line parameters insufficient"
    ∷ codes "Unknown command line option"
    ∷ codes "Invalid command line format"
    ∷ codes "Invalid parameter type"
    ∷ codes "Object mismatched"
    ∷ codes "Length too big"
    ∷ codes "Length too small"
    ∷ codes "Target not ready"
    ∷ codes "Signal not arising"
    ∷ []

-- The digits of `%d`, with fuel for each of them.
unfoldable pub digits : ℕ → ℕ → Message
digits zero n = []
digits (suc fuel) n =
    let higher = digits fuel (n / 10) in
    if ltb n 10 then (b'0' + n) ∷ [] else higher ++ (b'0' + n % 10) ∷ []

-- A number has fewer digits than one more than it counts.
abbrev pub decimal : ℕ → Message
decimal n = digits (n + 1) n

-- What `snprintf` is to write for a return code. `strerror n` is the system's message for its error
-- `n`, and `none` an access outside of S_DESCRIPTIONS.
unfoldable pub message_of : (ℕ → Message) → ℤ → Option Message
message_of strerror (pos zero) = some (codes "Successful")
message_of strerror (pos (suc n)) =
    some (decimal (suc n) ++ codes " units data processed or a code from a sub-function")
message_of strerror (negsuc zero) = some (codes "General failure or Operation not permitted")
message_of strerror (negsuc (suc n)) =
    if ltb (n + 2) user_ret_code_begin
    then some (strerror (n + 2))
    else if ltb user_ret_code_end (n + 2)
    then some (codes "Unknown return code " ++ b'-' ∷ decimal (n + 2))
    else get_elem? descriptions (n + 2 - user_ret_code_begin)

-- MIN_RET_BUF_LEN.
abbrev pub min_ret_buf_len : ℕ
min_ret_buf_len = 11

-- `parse_return_code`: the return value and the text in the buffer, which holds `old` at first.
unfoldable pub parse_return_code : (ℕ → Message) → ℤ → ℤ → Message → Option (ℤ × Message)
parse_return_code strerror retcode (negsuc n) old = some (negsuc 0, old)
parse_return_code strerror retcode (pos zero) old = some (negsuc 0, old)
parse_return_code strerror retcode (pos (suc n)) old =
    if ltb (suc n) min_ret_buf_len then some (negsuc 0, []) else do
      text ← message_of strerror retcode
      some (if ltb 0 (length text) then pos 0 else negsuc 0, take n text)
