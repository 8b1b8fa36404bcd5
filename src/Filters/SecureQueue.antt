-- ===== src/Filters/SecureQueue.antt =====
-- filters/secqueue.cpp: a queue of bytes in a chain of buffers. Of a node's buffer the model has the
-- bytes before `end`. The chain from `head` to `tail` is a list, empty where `head` is null; `tail`
-- is its last node. `size` is DEFAULT_BUFFERSIZE, which the build sets.
pub mod Fifo
pub mod Assign
pub mod Reads
mod Tests
use php_botan.Base.{
  ℕ, zero, suc, ◌+◌, ◌-◌, ◌*◌, ◌/◌, min, List, [], ◌∷◌, ◌++◌, Bool, take, drop, length, leb, ◌==◌,
  if◌then◌else◌,
}

pub record SecureQueueNode : Type 0 where
  pub buffer : List ℕ
  pub start : ℕ

abbrev pub new_node : SecureQueueNode
new_node = record { buffer = []; start = 0 }

abbrev pub SecureQueue : Type 0
SecureQueue = List SecureQueueNode

unfoldable pub node_size : SecureQueueNode → ℕ
node_size n = length n.buffer - n.start

-- The node after a write, and how many bytes it took.
unfoldable pub node_write : ℕ → SecureQueueNode → List ℕ → SecureQueueNode × ℕ
node_write size n input =
    let copied = min (length input) (size - length n.buffer) in
    (record n { buffer = n.buffer ++ take copied input }, copied)

-- The node after a read, and the bytes read.
unfoldable pub node_read : SecureQueueNode → ℕ → SecureQueueNode × List ℕ
unfolding node_size
node_read n len =
    let copied = min len (node_size n) in
    (record n { start = n.start + copied }, take copied (drop n.start n.buffer))

unfoldable pub node_peek : SecureQueueNode → ℕ → ℕ → List ℕ
unfolding node_size
node_peek n len offset =
    let left = node_size n in
    if leb left offset
    then []
    else take (min len (left - offset)) (drop (n.start + offset) n.buffer)

-- `while(length)` on the tail; a node that is full is followed by a new one. Every round but the
-- first takes a byte at least, so that one round more than bytes is fuel enough.
unfoldable pub fill : ℕ → ℕ → SecureQueueNode → List ℕ → SecureQueue
unfolding node_write
fill size zero tail input = tail ∷ []
fill size (suc fuel) tail [] = tail ∷ []
fill size (suc fuel) tail (b ∷ input) =
    let (tail', n) = node_write size tail (b ∷ input) in
    let rest = drop n (b ∷ input) in
    let more = tail' ∷ fill size fuel new_node rest in if length rest == 0 then tail' ∷ [] else more

unfoldable pub write : ℕ → SecureQueue → List ℕ → SecureQueue
unfolding fill
write size [] input = fill size (suc (length input)) new_node input
write size (n ∷ []) input = fill size (suc (length input)) n input
write size (n ∷ m ∷ ns) input = n ∷ write size (m ∷ ns) input

-- `while(length && head)`: the bytes read, and the chain that is left. A round ends the loop or takes
-- the head off.
unfoldable pub read_loop : ℕ → SecureQueue → ℕ → List ℕ × SecureQueue
unfolding node_read
read_loop zero q len = ([], q)
read_loop (suc fuel) [] len = ([], [])
read_loop (suc fuel) (n ∷ ns) len =
    let (n', out) = node_read n len in
    let next = read_loop fuel ns (len - length out) in
    let again = read_loop fuel (n' ∷ ns) (len - length out) in
    if len == 0
    then ([], n ∷ ns)
    else if node_size n' == 0
    then (out ++ next.0, next.1)
    else (out ++ again.0, again.1)

unfoldable pub read : SecureQueue → ℕ → List ℕ × SecureQueue
unfolding read_loop
read q len = read_loop (suc (length q)) q len

-- The first loop of `peek`: the node at which to begin, and the offset in it.
unfoldable pub skip_nodes : SecureQueue → ℕ → SecureQueue × ℕ
skip_nodes [] offset = ([], offset)
skip_nodes (n ∷ ns) offset =
    let next = skip_nodes ns (offset - node_size n) in
    if offset == 0
    then (n ∷ ns, offset)
    else if leb (node_size n) offset
    then next
    else (n ∷ ns, offset)

unfoldable pub peek_loop : SecureQueue → ℕ → ℕ → List ℕ
unfolding node_peek
peek_loop [] len offset = []
peek_loop (n ∷ ns) len offset =
    let out = node_peek n len offset in
    let more = out ++ peek_loop ns (len - length out) 0 in if len == 0 then [] else more

unfoldable pub peek : SecureQueue → ℕ → ℕ → List ℕ
unfolding peek_loop skip_nodes
peek q len offset = let (ns, offset') = skip_nodes q offset in peek_loop ns len offset'

unfoldable pub queue_size : SecureQueue → ℕ
unfolding node_size
queue_size [] = 0
queue_size (n ∷ ns) = node_size n + queue_size ns

unfoldable pub end_of_data : SecureQueue → Bool
end_of_data q = queue_size q == 0

-- The loop of the copy constructor and of `operator=`: what each node holds is written to the queue.
unfoldable pub copy_nodes : ℕ → SecureQueue → SecureQueue → SecureQueue
unfolding write
copy_nodes size q [] = q
copy_nodes size q (n ∷ ns) = copy_nodes size (write size q (drop n.start n.buffer)) ns

-- The copy constructor: a chain of one new node is written to.
unfoldable pub copy : ℕ → SecureQueue → SecureQueue
unfolding copy_nodes
copy size input = copy_nodes size (new_node ∷ []) input

unfoldable pub destroy : SecureQueue → SecureQueue
destroy q = []

-- The queues by their addresses.
abbrev pub Store : Type 0
Store = ℕ → SecureQueue

unfoldable pub store : Store → ℕ → SecureQueue → Store
store queues target q p = if p == target then q else queues p

-- `operator=` of the queue at `target`, whose argument is the queue at `source`. The loop reads the
-- chain of the argument as the first two statements left it. Where the two are one object that is
-- one empty node, which the loop writes nothing to.
unfoldable pub assign : ℕ → ℕ → ℕ → Store → Store
unfolding destroy copy_nodes store
assign size target source queues =
    let destroyed = store queues target (destroy (queues target)) in
    let fresh = store destroyed target (new_node ∷ []) in
    store fresh target (copy_nodes size (fresh target) (fresh source))
