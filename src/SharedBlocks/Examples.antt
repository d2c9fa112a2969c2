-- ===== src/SharedBlocks/Examples.antt =====
-- The producer and one consumer on small interleavings.
use eltex_summer.Base.{
  ℕ, suc, ◌+◌, ◌*◌, ◌%◌, ◌<◌, ◌↔◌, ◌≡◌, refl, false, Option, none, some, List, [], ◌++◌, replicate,
  get_elem?, ◌≤◌, true, arith,
}
use eltex_summer.SharedBlocks.{
  SharedMemory, Consumer, ConsumerAt, Producer, ProducerAt, BlockReport, System, Turn, of_producer,
  of_consumer, remaining, fill, has_unprocessed, create, finish, start_block, check_blocks,
  produce_from, producer_turn, take_first, min_max, process, look, take_block, consume_from,
  consumer_turn, turn_of, turn, run, start,
}
use eltex_summer.SharedBlocks.Sums.{sum_of, of_node}
use eltex_summer.SharedBlocks.Blocks.{IsOver, run-Reported}
use eltex_summer.SharedBlocks.Progress.{lone_rounds, pending, run-lone_rounds}
use eltex_summer.SharedBlocks.Memory.{start_block-none}
use eltex_summer.SharedBlocks.SetUp
use eltex_summer.SharedBlocks.SetUp.CleanUp
use eltex_summer.SharedBlocks.SetUp.CleanUp.{IsClean, main-IsClean}
use eltex_summer.SharedBlocks.SystemV
use eltex_summer.SharedBlocks.SystemV.{Leaves, main-Leaves}

-- 40 turns of the producer with large blocks, and then a consumer until it ends
abbrev producing : List Turn
producing = replicate 40 (of_producer 49 (λ i. i))

abbrev consuming : List Turn
consuming = replicate 19 (of_consumer 0)

abbrev state_of : Option System → System
state_of none = start 0
state_of (some s) = s

produced : System
unfolding run turn turn_of producer_turn consumer_turn produce_from start start_block create finish
    check_blocks has_unprocessed remaining fill
produced = state_of (run producing (start 1))

run-produced : run producing (start 1) ≡ some produced
unfolding produced run turn turn_of producer_turn consumer_turn produce_from start start_block
    create finish check_blocks has_unprocessed remaining fill
run-produced = refl

finished : System
unfolding run turn turn_of producer_turn consumer_turn consume_from look take_block take_first
    process min_max produce_from start start_block create finish check_blocks has_unprocessed
    remaining fill
finished = state_of (run (producing ++ consuming) (start 1))

run-finished : run (producing ++ consuming) (start 1) ≡ some finished
unfolding produced finished run turn turn_of producer_turn consumer_turn consume_from look
    take_block take_first process min_max produce_from start start_block create finish check_blocks
    has_unprocessed remaining fill
run-finished = refl

run-Reported_example :
    (finished.producer.at ≡ ProducerAt.over)
    × ((w : BlockReport → ℕ) → sum_of w finished.reports ≡ sum_of (of_node w) finished.shm.nodes)
unfolding produced finished run turn turn_of producer_turn consumer_turn consume_from look
    take_block take_first process min_max produce_from start start_block create finish check_blocks
    has_unprocessed remaining fill IsOver
run-Reported_example =
    run-Reported 1 (producing ++ consuming) finished run-finished (omega arith) (refl, tt)

run-lone_rounds_example :
    (after : System) × (run (lone_rounds (suc (pending produced)) 0) produced ≡ some after)
    × (has_unprocessed after.shm.nodes ≡ false)
    × (d : Consumer) × (get_elem? after.consumers 0 ≡ some d)
    × (d.at ≡ ConsumerAt.over)
unfolding produced finished run turn turn_of producer_turn consumer_turn consume_from look
    take_block take_first process min_max produce_from start start_block create finish check_blocks
    has_unprocessed remaining fill
run-lone_rounds_example =
    run-lone_rounds 1 producing produced 0
      (record { at = ConsumerAt.looking; processed_blocks = 0; wait_count = 0 }) run-produced refl
      refl refl

abbrev almost_full : Producer
almost_full = record {
  at = ProducerAt.creating;
  used_memory = 1900;
  block_count = 6;
  blocks_since_check = 1;
}

abbrev memory : SharedMemory
memory = record { nodes = []; total_size = 2048; producer_finished = false }

start_block-none_example :
    (start_block 5 (λ i. i) almost_full memory ≡ none)
    ↔ ((1900 + 12 + (5 % 50 + 20) * 4 ≤ 2048) × (2048 < 1900 + 72 + (5 % 50 + 20) * 4))
start_block-none_example =
    start_block-none 5 (λ i. i) almost_full memory (omega arith) (omega arith)

-- `sem_open` fails.
abbrev no_semaphore : SetUp.Calls
no_semaphore = record {
  strdup_shm = true;
  shm_open = some 3;
  ftruncate = true;
  mmap = true;
  strdup_sem = true;
  sem_open = false;
  fork_producer = true;
  malloc = true;
  fork_consumer = λ i. true;
}

main-IsClean_example : IsClean (some 3) (SetUp.main none no_semaphore CleanUp.at_start).1
main-IsClean_example = main-IsClean none no_semaphore

-- The value of the semaphore cannot be set.
abbrev no_value : SystemV.Calls
no_value = record {
  ftok = true;
  shmget = some 0;
  shmat = true;
  semget = some 5;
  setval = false;
  fork_producer = true;
  malloc = true;
  fork_consumer = λ i. true;
}

main-Leaves_example : Leaves true true true (SystemV.main none no_value SystemV.at_start).1
unfolding SetUp.num_consumers
main-Leaves_example = main-Leaves none no_value
