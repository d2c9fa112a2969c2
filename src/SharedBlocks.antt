-- ===== src/SharedBlocks.antt =====
-- The producer and the consumers on shared memory: module3/05/producer.c, module3/05/consumer.c and the
-- structures of module3/05/ipc_utils.h (module3/04 is the same program with System V semaphores).
-- A turn of a process is its code from one `semaphore_unlock` to the next, so an interleaving of the
-- processes is a list of turns. Addresses count from the start of the mapping; `rand` is an argument.
pub mod Sums
pub mod Processing
pub mod Interleaved
pub mod Blocks
pub mod Progress
pub mod Memory
pub mod SetUp
pub mod SystemV
mod Examples
use eltex_summer.Base.{
  ℕ, zero, suc, ◌+◌, ◌-◌, ◌*◌, ◌%◌, ◌^◌, Bool, true, false, not, ◌&&◌, Option, none, some, List, [],
  ◌∷◌, ◌++◌, ltb, leb, ◌==◌, if◌then◌else◌, ◌>>=◌, length, take, set, get_elem?, replicate,
}

-- `Node`; the list of nodes from `head` to `tail` stands for the pointers `next`. `data_` are the numbers
-- at `data`, `address` is where the node stands.
pub record Node : Type 0 where
  pub address : ℕ
  pub count : ℕ
  pub data_ : List ℕ

pub record SharedMemory : Type 0 where
  pub nodes : List Node
  pub total_size : ℕ
  pub producer_finished : Bool

-- Where the producer stands: at the head of its loop, before the look at all blocks, before the last
-- write of `producer_finished`, or at its end.
pub data ProducerAt : Type 0 where
  creating checking ending over : ProducerAt

pub record Producer : Type 0 where
  pub at : ProducerAt
  pub used_memory : ℕ
  pub block_count : ℕ
  pub blocks_since_check : ℕ

-- Where a consumer stands: at the head of its loop, before it takes a block, after it took one with
-- its count and its numbers, or at its end.
pub data ConsumerAt : Type 0 where
  looking taking : ConsumerAt
  holding : ℕ → List ℕ → ConsumerAt
  over : ConsumerAt

pub record Consumer : Type 0 where
  pub at : ConsumerAt
  pub processed_blocks : ℕ
  pub wait_count : ℕ

-- The line that a consumer prints for a block.
pub record BlockReport : Type 0 where
  pub count : ℕ
  pub min_val : ℕ
  pub max_val : ℕ

pub record System : Type 0 where
  pub shm : SharedMemory
  pub producer : Producer
  pub consumers : List Consumer
  pub reports : List BlockReport

-- `sizeof(SharedMemory)`, `sizeof(Node)`, `sizeof(int) + sizeof(Node*)`
abbrev pub sizeof_shared_memory : ℕ
sizeof_shared_memory = 48

abbrev pub sizeof_node : ℕ
sizeof_node = 24

abbrev pub reserved : ℕ
reserved = 12

-- `shm->total_size - used_memory` of type `size_t`
unfoldable pub remaining : ℕ → ℕ → ℕ
remaining total_size used = (total_size + (2 ^ 64 - used % 2 ^ 64)) % 2 ^ 64

-- The loop that fills `data`: `(rand() % 100) + 1`
unfoldable pub fill : ℕ → (ℕ → ℕ) → List ℕ
fill zero rand = []
fill (suc n) rand = (rand 0 % 100 + 1) ∷ fill n (λ i. rand (suc i))

-- The loop that looks for a node with `count > 0`
unfoldable pub has_unprocessed : List Node → Bool
has_unprocessed [] = false
has_unprocessed (n ∷ nodes) = if ltb 0 n.count then true else has_unprocessed nodes

-- The producer makes a node and links it. The code makes no test here: `none` stands for a write beyond the end of
-- the memory, behind which nothing is known of the process.
unfoldable pub create : ℕ → (ℕ → ℕ) → Producer → SharedMemory → Option (Producer × SharedMemory)
create count rand p shm =
    let address = sizeof_shared_memory + p.used_memory in
    let since = suc p.blocks_since_check in
    if ltb shm.total_size (address + sizeof_node + count * 4)
    then none
    else some (
      record {
        at = if leb 5 since then checking else creating;
        used_memory = p.used_memory + sizeof_node + count * 4;
        block_count = suc p.block_count;
        blocks_since_check = since;
      },
      record shm {
        nodes =
            shm.nodes ++ record { address = address; count = count; data_ = fill count rand } ∷ [];
      },
    )

unfoldable pub finish : Producer → SharedMemory → Producer × SharedMemory
finish p shm = (record p { at = over }, record shm { producer_finished = true })

-- The head of the loop of `producer_function`, with the value that `rand` gives for `count`
unfoldable pub start_block :
    ℕ → (ℕ → ℕ) → Producer → SharedMemory → Option (Producer × SharedMemory)
start_block r rand p shm =
    let rest = remaining shm.total_size p.used_memory in
    let count = r % 50 + 20 in
    if ltb rest (reserved + 4)
    then some (finish p shm)
    else if ltb rest (reserved + count * 4)
    then some (finish p shm)
    else create count rand p shm

-- `all_processed`, and what follows from it
unfoldable pub check_blocks : Producer → SharedMemory → Producer × SharedMemory
check_blocks p shm =
    if not (has_unprocessed shm.nodes) && ltb 0 p.block_count
    then (record p { at = ending }, shm)
    else (record p { at = creating; blocks_since_check = 0 }, shm)

-- The producer's code from a place on
unfoldable pub produce_from :
    ProducerAt → ℕ → (ℕ → ℕ) → Producer → SharedMemory → Option (Producer × SharedMemory)
produce_from creating r rand p shm = start_block r rand p shm
produce_from checking r rand p shm = some (check_blocks p shm)
produce_from ending r rand p shm = some (finish p shm)
produce_from over r rand p shm = some (p, shm)

unfoldable pub producer_turn :
    ℕ → (ℕ → ℕ) → Producer → SharedMemory → Option (Producer × SharedMemory)
producer_turn r rand p shm = produce_from p.at r rand p shm

-- The first node with `count > 0`, and the list once its count is 0
unfoldable pub take_first : List Node → Option (Node × List Node)
take_first [] = none
take_first (n ∷ nodes) =
    if ltb 0 n.count
    then some (n, record n { count = 0 } ∷ nodes)
    else (take_first nodes >>= λ (m, rest). some (m, n ∷ rest))

-- The loop over `data[1]`, `data[2]`, …
unfoldable pub min_max : ℕ → ℕ → List ℕ → ℕ × ℕ
min_max min_val max_val [] = (min_val, max_val)
min_max min_val max_val (x ∷ xs) =
    min_max (if ltb x min_val then x else min_val) (if ltb max_val x then x else max_val) xs

-- What is printed for a block. `none`: it reads outside of `data`.
unfoldable pub process : ℕ → List ℕ → Option BlockReport
process count [] = none
process count (x ∷ xs) =
    let found = min_max x x (take (count - 1) xs) in
    if ltb (suc (length xs)) count
    then none
    else some (record { count = count; min_val = found.0; max_val = found.1 })

-- The head of the loop of `consumer_function`
unfoldable pub look : Consumer → SharedMemory → Consumer
look c shm =
    let unprocessed = has_unprocessed shm.nodes in
    if shm.producer_finished && not unprocessed
    then record c { at = over }
    else if not unprocessed && not shm.producer_finished
    then record c { wait_count = suc c.wait_count }
    else record c { at = taking; wait_count = 0 }

-- The critical section of a consumer that saw a block to take
unfoldable pub take_block :
    Option (Node × List Node) → Consumer → SharedMemory → Consumer × SharedMemory
take_block none c shm = (record c { at = looking }, shm)
take_block (some (n, nodes)) c shm =
    (record c { at = holding n.count n.data_ }, record shm { nodes = nodes })

-- A consumer's code from a place on: the consumer, the memory and the lines that it prints
unfoldable pub consume_from :
    ConsumerAt → Consumer → SharedMemory → Option (Consumer × SharedMemory × List BlockReport)
consume_from looking c shm = some (look c shm, shm, [])
consume_from taking c shm =
    let after = take_block (take_first shm.nodes) c shm in some (after.0, after.1, [])
consume_from (holding count data_) c shm = process count data_ >>= λ r.
    some (record c { at = looking; processed_blocks = suc c.processed_blocks }, shm, r ∷ [])
consume_from over c shm = some (c, shm, [])

unfoldable pub consumer_turn :
    Consumer → SharedMemory → Option (Consumer × SharedMemory × List BlockReport)
consumer_turn c shm = consume_from c.at c shm

-- A turn: of the producer, with what `rand` gives, or of the consumer with this number
pub data Turn : Type 0 where
  of_producer : ℕ → (ℕ → ℕ) → Turn
  of_consumer : ℕ → Turn

unfoldable pub turn_of : Option Consumer → ℕ → System → Option System
turn_of none i s = some s
turn_of (some c) i s = consumer_turn c s.shm >>= λ (d, shm, printed).
    some (record s { shm = shm; consumers = set s.consumers i d; reports = s.reports ++ printed })

unfoldable pub turn : Turn → System → Option System
turn (of_producer r rand) s = producer_turn r rand s.producer s.shm >>= λ (p, shm).
    some (record s { shm = shm; producer = p })
turn (of_consumer i) s = turn_of (get_elem? s.consumers i) i s

-- `none`: a process has written or read outside of the memory, what the code does not notice
unfoldable pub run : List Turn → System → Option System
run [] s = some s
run (t ∷ turns) s = turn t s >>= λ after. run turns after

-- The state that `init_shared_memory` and `main` set up for so many consumers
unfoldable pub start : ℕ → System
start consumers = record {
  shm = record { nodes = []; total_size = 2 * 1024; producer_finished = false };
  producer = record {
    at = creating;
    used_memory = sizeof_shared_memory;
    block_count = 0;
    blocks_since_check = 0;
  };
  consumers = replicate consumers (record { at = looking; processed_blocks = 0; wait_count = 0 });
  reports = [];
}
