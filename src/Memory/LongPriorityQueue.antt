-- ===== src/Memory/LongPriorityQueue.antt =====
-- buffer/LongPriorityQueue.h: a binary heap over places 1 to `size` of a vector. A handle is a
-- natural number, so none is `NO_VALUE`; the answer `NO_VALUE` of an empty queue is `none`.
pub mod Order
pub mod Occurrences
pub mod Laws
pub mod Removal
mod Tests
use mutty.Common.{
  ℕ, zero, suc, ◌+◌, ◌-◌, ◌*◌, ◌/◌, ◌%◌, ◌^◌, ◌≤◌, ◌<◌, min, max, ◌≡◌, refl, sym, ap, ◌∙◌, subst,
  ◌≢◌, ◌⊎◌, inl, inr, Bool, true, false, not, ◌&&◌, ◌||◌, Option, none, some, List, [], ◌∷◌, ◌++◌,
  arith, ltb, leb, ◌==◌, if◌then◌else◌, Bool-cases, Option-cases, eq_of_some, ltb→lt, lt→ltb,
  ltb_false→le, le→ltb_false, leb→le, ==→eq, eq→==, ne→==_false, length, get_elem?, get_or, set,
  take, drop, replicate, length-append, length-set, length-take, length-drop, length-replicate,
  take-append_drop, take-append, drop-append, get_or-set,
}

pub record LongPriorityQueue : Type 0 where
  pub array : List ℕ
  pub size : ℕ

-- `array[i]`
abbrev pub at : List ℕ → ℕ → ℕ
at array i = get_or array i 0

abbrev pub subord : List ℕ → ℕ → ℕ → Bool
subord array a b = ltb (at array b) (at array a)

abbrev pub swap : List ℕ → ℕ → ℕ → List ℕ
swap array a b = set (set array a (at array b)) b (at array a)

-- `lift`; the index is halved, so as much fuel as the index is enough.
pub lift : ℕ → List ℕ → ℕ → List ℕ
lift zero array index = array
lift (suc fuel) array index =
    let rest = lift fuel (swap array index (index / 2)) (index / 2) in
    if ltb 1 index && subord array (index / 2) index then rest else array

-- The child that `sink` compares with.
abbrev pub smaller_child : List ℕ → ℕ → ℕ → ℕ
smaller_child array size index =
    if ltb (index * 2) size && subord array (index * 2) (index * 2 + 1)
    then index * 2 + 1
    else index * 2

-- `sink`; the index is doubled, so as much fuel as the size is enough.
pub sink : ℕ → List ℕ → ℕ → ℕ → List ℕ
sink zero array size index = array
sink (suc fuel) array size index =
    let child = smaller_child array size index in
    let rest = sink fuel (swap array index child) size child in
    if leb (index * 2) size && subord array index child then rest else array

-- The constructor.
unfoldable pub new_queue : LongPriorityQueue
new_queue = record { array = replicate 9 0; size = 0 }

-- `array.resize(1 + (array.size() - 1) * 2)` when the new size is the vector's.
abbrev pub grown : List ℕ → ℕ → List ℕ
grown array size = if size == length array then array ++ replicate (length array - 1) 0 else array

unfoldable pub offer : LongPriorityQueue → ℕ → LongPriorityQueue
unfolding lift
offer q handle =
    let size = q.size + 1 in
    let array = set (grown q.array size) size handle in
    record { array = lift size array size; size = size }

-- The loop of `remove` that looks for the value, over the places left from `i` on.
pub find_value : ℕ → List ℕ → ℕ → ℕ → Option ℕ
find_value zero array i value = none
find_value (suc left) array i value =
    let rest = find_value left array (i + 1) value in if at array i == value then some i else rest

unfoldable pub remove : LongPriorityQueue → ℕ → LongPriorityQueue
unfolding lift sink find_value
remove q value = elim (find_value q.size q.array 1 value) [
  | none ↦ q
  | some i ↦
      let size = q.size - 1 in
      let array = set q.array i (at q.array q.size) in
      record { array = sink size (lift i array i) size i; size = size }
]

pub peek : LongPriorityQueue → Option ℕ
peek q = if q.size == 0 then none else some (at q.array 1)

unfoldable pub poll : LongPriorityQueue → Option (ℕ × LongPriorityQueue)
unfolding sink
poll q =
    let size = q.size - 1 in
    let array = set (set q.array 1 (at q.array q.size)) q.size 0 in
    if q.size == 0
    then none
    else some (at q.array 1, record { array = sink size array size 1; size = size })

unfoldable pub is_empty : LongPriorityQueue → Bool
is_empty q = q.size == 0
