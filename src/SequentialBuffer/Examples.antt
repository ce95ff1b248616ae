-- ===== src/SequentialBuffer/Examples.antt =====
-- The buffer at work on small blocks.
use cpp_assistant.Prelude.{
  ℕ, ◌≡◌, refl, none, some, List, [], ◌∷◌, ◌++◌, length, take, pos, arith, true, load, store,
  replicate, length-replicate, max, ◌-ℤ◌, ◌+ℤ◌,
}
use cpp_assistant.SequentialBuffer.{
  SequentialBuffer, overflow_pos, min_buf_size, move_data_to_header, read, write, full, data_size,
  write_some, free_size, shift_down, put_in, has_overflown_pointer, move_read_pointer,
  get_write_pointer, move_write_pointer,
}
use cpp_assistant.SequentialBuffer.Storage.{resize}
use cpp_assistant.SequentialBuffer.Queue.{dequeue, enqueue}
use cpp_assistant.SequentialBuffer.Layout.{held, Holds}
use cpp_assistant.SequentialBuffer.Reading.{read_dequeues}
use cpp_assistant.SequentialBuffer.Writing.{write_enqueues}
use cpp_assistant.SequentialBuffer.ReadPointer.{move_read_pointer_dequeues}
use cpp_assistant.SequentialBuffer.WritePointer.{direct_write_enqueues}
use cpp_assistant.SequentialBuffer.Sizing.{resize_keeps}
use cpp_assistant.SequentialBuffer.Faults.{write_past_overflow_faults}

abbrev cells : List ℕ
cells = 9 ∷ 1 ∷ 2 ∷ 0 ∷ []

-- Two bytes, one free cell in front of them and one behind them.
abbrev middle : SequentialBuffer
middle = held cells (pos 1) (pos 3)

abbrev middle_bytes : List ℕ
middle_bytes = 1 ∷ 2 ∷ []

middle-Holds : Holds 4 middle_bytes middle
middle-Holds = (cells, pos 1, pos 3, refl, refl, omega arith, refl)

-- A full buffer.
abbrev filled : SequentialBuffer
filled = held cells (pos 0) overflow_pos

filled-Holds : Holds 4 cells filled
filled-Holds = (cells, pos 0, overflow_pos, refl, refl, omega arith, refl)

-- The same buffer after one byte was read.
abbrev past_end : SequentialBuffer
past_end = held cells (pos 1) overflow_pos

past_end-Holds : Holds 4 (1 ∷ 2 ∷ 0 ∷ []) past_end
past_end-Holds = (cells, pos 1, overflow_pos, refl, refl, omega arith, refl)

-- The bytes do not fit behind those held: the block is packed first.
write_packs :
    write middle (pos 2) (some (5 ∷ 6 ∷ []))
    ≡ some (pos 2, held (1 ∷ 2 ∷ 5 ∷ 6 ∷ []) (pos 0) overflow_pos)
unfolding write full data_size ◌-ℤ◌ write_some ◌+ℤ◌ free_size move_data_to_header shift_down load
    store put_in
write_packs = refl

read_dequeues_example :
    (s' : SequentialBuffer) × (read middle (pos 9) true
      ≡ some (pos 2, (dequeue middle_bytes 2).0, s'))
    × Holds 4 (dequeue middle_bytes 2).1 s'
read_dequeues_example = read_dequeues 4 9 middle_bytes middle middle-Holds

write_enqueues_example :
    (s' : SequentialBuffer) × (write middle (pos 3) (some (5 ∷ 6 ∷ 7 ∷ [])) ≡ some (pos 2, s'))
    × Holds 4 (enqueue 4 middle_bytes (5 ∷ 6 ∷ 7 ∷ [])) s'
write_enqueues_example =
    write_enqueues 4 3 middle_bytes (5 ∷ 6 ∷ 7 ∷ []) middle middle-Holds refl (omega arith)

move_read_pointer_dequeues_example :
    (s' : SequentialBuffer) × (move_read_pointer middle (pos 1) ≡ some (pos 1, s'))
    × Holds 4 (2 ∷ []) s'
move_read_pointer_dequeues_example =
    move_read_pointer_dequeues 4 1 middle_bytes middle middle-Holds (omega arith) (omega arith)

got_write_pointer : get_write_pointer middle ≡ some (some (pos 3), middle)
unfolding get_write_pointer has_overflown_pointer
got_write_pointer = refl

direct_write_enqueues_example :
    (block : List ℕ) × (s2 : SequentialBuffer) × (store middle.block (pos 3) (7 ∷ []) ≡ some block)
    × (move_write_pointer (record middle { block = some block }) (pos 1) ≡ some (pos 1, s2))
    × Holds 4 (middle_bytes ++ 7 ∷ []) s2
direct_write_enqueues_example =
    direct_write_enqueues 4 3 middle_bytes (7 ∷ []) middle middle middle-Holds (omega arith)
      got_write_pointer (omega arith) (omega arith)

resize_keeps_example :
    (s' : SequentialBuffer) × (resize middle (pos 8) true ≡ some (pos (max 8 min_buf_size), s'))
    × Holds (max 8 min_buf_size) (take (max 8 min_buf_size) middle_bytes) s'
resize_keeps_example =
    resize_keeps 4 8 middle_bytes middle middle-Holds (omega arith) (λ e. omega (arith, e))

abbrev big_cells : List ℕ
big_cells = replicate 1024 7

big-length : length big_cells ≡ 1024
big-length = length-replicate 1024 (let z : ℕ = 7 in z)

big-Holds : Holds (length big_cells) (take 2 big_cells) (held big_cells (pos 0) (pos 2))
big-Holds = (big_cells, pos 0, pos 2, refl, refl, omega (arith, big-length), refl)

write_past_overflow_faults_example : write past_end (pos 1) (some (5 ∷ [])) ≡ none
write_past_overflow_faults_example =
    write_past_overflow_faults 4 1 (1 ∷ 2 ∷ 0 ∷ []) (5 ∷ []) past_end past_end-Holds refl
      (omega arith) (omega arith)
