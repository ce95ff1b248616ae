-- ===== src/ReturnCode/Examples.antt =====
-- Messages of some codes.
use cpp_assistant.Prelude.{[], ℕ, ◌≡◌, refl, some, pos, codes}
use cpp_assistant.ReturnCode.Messages.{Message, message_of, parse_return_code, digits}

abbrev no_error : ℕ → Message
no_error n = codes "Success"

parse_return_code-positive :
    parse_return_code no_error (pos 1205) (pos 13) [] ≡ some (pos 0, codes "1205 units d")
unfolding parse_return_code message_of digits
parse_return_code-positive = refl
