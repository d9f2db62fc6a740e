-- ===== src/Memory/RunQueue/Heap.antt =====
-- The binary heap of buffer/LongPriorityQueue.h behind the interface of a chunk's queues.
use mutty.Memory.LongPriorityQueue
use mutty.Memory.LongPriorityQueue.{LongPriorityQueue}
use mutty.Memory.LongPriorityQueue.Laws
use mutty.Memory.LongPriorityQueue.Removal.{remove_lem}
use mutty.Memory.RunQueue.{RunQueue}

abbrev pub heap_queue : RunQueue
heap_queue = record {
  Queue = LongPriorityQueue;
  IsValid = Laws.IsValid;
  holds = Laws.holds;
  new_queue = LongPriorityQueue.new_queue;
  offer = LongPriorityQueue.offer;
  remove = LongPriorityQueue.remove;
  poll = LongPriorityQueue.poll;
  is_empty = LongPriorityQueue.is_empty;
  new_queue_lem = Laws.new_queue_lem;
  offer_lem = Laws.offer_lem;
  remove_lem = remove_lem;
  poll_lem = Laws.poll_nonempty;
  empty_lem = Laws.empty_lem;
}
