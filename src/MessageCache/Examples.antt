-- ===== src/MessageCache/Examples.antt =====
-- Two messages, one of them expired.
use cpp_assistant.Prelude.{◌≡◌, refl, Bool, false, none, [], ◌∷◌, ℤ, pos, text_eq}
use cpp_assistant.Prelude.TextMap.{find}
use cpp_assistant.Dictionary.{Dict}
use cpp_assistant.Dictionary.Listed.{Entries, listed}
use cpp_assistant.MessageCache.{Message}

abbrev dict : Dict Message
dict = listed

abbrev message : ℤ → Message
message at = record {
  cmd = pos 1;
  from_fd = pos 0;
  from_name = none;
  to_fd = pos 0;
  to_name = none;
  last_op_time = at;
  contents = 0;
}

other_key : find (98 ∷ []) ((97 ∷ [], message (pos 0)) ∷ []) ≡ none
unfolding find text_eq
other_key = refl

no_key : find {V = Message} (97 ∷ []) [] ≡ none
unfolding find
no_key = refl

abbrev two_messages : Entries Message
two_messages =
    ((98 ∷ [], message (pos 90)) ∷ (97 ∷ [], message (pos 0)) ∷ [], (other_key, (no_key, tt)))

abbrev not_slow : ℤ → Bool
not_slow cmd = false
