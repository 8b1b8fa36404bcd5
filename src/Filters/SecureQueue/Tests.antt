-- ===== src/Filters/SecureQueue/Tests.antt =====
-- A queue with buffers of four bytes.
use php_botan.Base.{
  ℕ, ◌≡◌, refl, arith, List, [], ◌∷◌, ◌++◌, take, drop, length, ◌==◌, if◌then◌else◌,
}
use php_botan.Filters.SecureQueue.{
  SecureQueue, new_node, write, read, peek, queue_size, copy, Store, assign,
}
use php_botan.Filters.SecureQueue.Fifo.{
  contents, IsQueue, write-contents, copy-contents, queue_size_lem,
}
use php_botan.Filters.SecureQueue.Assign.{assign-contents}
use php_botan.Filters.SecureQueue.Reads.{Reads, read-Reads, peek_lem}

-- Three nodes: one that is read in part, one that is full, and one that is empty.
abbrev three_nodes : SecureQueue
three_nodes =
    record { buffer = 1 ∷ 2 ∷ 3 ∷ 4 ∷ []; start = 1 }
    ∷ record { buffer = 5 ∷ 6 ∷ 7 ∷ 8 ∷ []; start = 0 }
    ∷ new_node
    ∷ []

three_nodes-IsQueue : IsQueue 4 three_nodes
three_nodes-IsQueue = (
  record { ordered = omega arith; fits = omega arith },
  (
    record { ordered = omega arith; fits = omega arith },
    (record { ordered = omega arith; fits = omega arith }, tt),
  ),
)

abbrev six_bytes : List ℕ
six_bytes = 9 ∷ 10 ∷ 11 ∷ 12 ∷ 13 ∷ 14 ∷ []

write-contents_example :
    (contents (write 4 three_nodes six_bytes) ≡ contents three_nodes ++ six_bytes)
    × IsQueue 4 (write 4 three_nodes six_bytes)
write-contents_example = write-contents 4 three_nodes six_bytes (omega arith) three_nodes-IsQueue

copy-contents_example :
    (contents (copy 4 three_nodes) ≡ contents three_nodes) × IsQueue 4 (copy 4 three_nodes)
copy-contents_example = copy-contents 4 three_nodes (omega arith)

-- The queue at 7 has bytes, and the others have none.
abbrev queues : Store
queues p = if p == 7 then three_nodes else []

assign-contents_example :
    (contents (assign 4 7 7 queues 7)
      ≡ (if 7 == 7 then (if 7 == 7 then [] else contents (queues 7)) else contents (queues 7)))
    × IsQueue 4 (assign 4 7 7 queues 7)
assign-contents_example = assign-contents 4 7 7 7 queues (omega arith)

self_assigned_run : contents (assign 4 7 7 queues 7) ≡ []
unfolding assign
self_assigned_run = refl

assigned_run : contents (assign 4 2 7 queues 2) ≡ 2 ∷ 3 ∷ 4 ∷ 5 ∷ 6 ∷ 7 ∷ 8 ∷ []
unfolding assign
assigned_run = refl

read-Reads_example : Reads 4 three_nodes 5 (read three_nodes 5)
read-Reads_example = read-Reads 4 three_nodes 5 three_nodes-IsQueue

peek_lem_example : peek three_nodes 3 2 ≡ take 3 (drop 2 (contents three_nodes))
peek_lem_example = peek_lem three_nodes 3 2

-- What the operations compute here.
read_run : (read three_nodes 5).0 ≡ 2 ∷ 3 ∷ 4 ∷ 5 ∷ 6 ∷ []
unfolding read
read_run = refl

peek_run : peek three_nodes 3 2 ≡ 4 ∷ 5 ∷ 6 ∷ []
unfolding peek
peek_run = refl

write_run : length (write 4 three_nodes six_bytes) ≡ 4
unfolding write
write_run = refl

queue_size_lem_example : queue_size three_nodes ≡ length (contents three_nodes)
queue_size_lem_example = queue_size_lem three_nodes
