-- ===== src/SequentialBuffer/Queue.antt =====
-- What a buffer promises: a queue of bytes, oldest first, with room for `cap` of them.
use cpp_assistant.Prelude.{ℕ, ◌-◌, List, ◌++◌, length, take, drop}

-- Up to `n` of the oldest bytes leave the queue.
abbrev pub dequeue : List ℕ → ℕ → List ℕ × List ℕ
dequeue q n = (take n q, drop n q)

-- As many bytes as there is room for join it.
abbrev pub enqueue : ℕ → List ℕ → List ℕ → List ℕ
enqueue cap q bytes = q ++ take (cap - length q) bytes
