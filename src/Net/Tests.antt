-- ===== src/Net/Tests.antt =====
-- The poller, the connector, the queue and the thread pool on concrete inputs.
use mutty.Common.{
  ℕ, ◌≡◌, refl, ◌≢◌, true, false, Option, none, some, List, [], ◌∷◌, ◌==◌, if◌then◌else◌, eq→==,
  ne→==_false,
}
use mutty.Net.Poller.{Operation, ctl_add, ctl_mod, ctl_del, Epoll, new, channel, Poller}
use mutty.Net.Channel.{enable_reading, disable_reading, enable_writing, requests}
use mutty.Net.Channel.Watching.{wish, Watches, requests-Watched}
use mutty.Net.Queue.{BufferNode, dequeue, drain, do_pending_functors, is_empty}

-- An epoll set as a function from descriptors to the events they wait for.
abbrev set_interest : Operation → ℕ → ℕ → (ℕ → Option ℕ) → ℕ → Option ℕ
set_interest ctl_add fd events s j = if j == fd then some events else s j
set_interest ctl_mod fd events s j = if j == fd then some events else s j
set_interest ctl_del fd events s j = if j == fd then none else s j

set_interest-others :
    (op : Operation) (s : ℕ → Option ℕ) (fd events other : ℕ)
    → other ≢ fd
    → set_interest op fd events s other ≡ s other
set_interest-others ctl_add s fd events other h = rw (ne→==_false other fd h)
set_interest-others ctl_mod s fd events other h = rw (ne→==_false other fd h)
set_interest-others ctl_del s fd events other h = rw (ne→==_false other fd h)

abbrev function_epoll : Epoll
function_epoll = record {
  Interests = ℕ → Option ℕ;
  interest = λ s fd. s fd;
  ctl = set_interest;
  add_absent = λ s fd events h. rw (eq→== fd fd refl);
  mod_present = λ s fd events old h. rw (eq→== fd fd refl);
  del_present = λ s fd events old h. rw (eq→== fd fd refl);
  ctl_others = set_interest-others;
}

-- The link of the third node is not stored yet.
abbrev two_linked : List (BufferNode ℕ)
two_linked =
    record { item = 4; linked = true }
    ∷ record { item = 5; linked = true }
    ∷ record { item = 6; linked = false }
    ∷ []

two_run : (do_pending_functors 2 4 two_linked).0 ≡ 4 ∷ 5 ∷ []
unfolding do_pending_functors drain dequeue is_empty
two_run = refl

-- No descriptor is known, and none is watched.
abbrev nothing_watched : Poller function_epoll
nothing_watched = record { channels = λ fd. false; epoll = λ fd. none }

-- Of reading and writing, only writing is wanted in the end: the kernel watches POLLOUT.
requests-Watched_example :
    (p' : Poller function_epoll) × (j : _) × (requests function_epoll
        (enable_reading ∷ enable_writing ∷ disable_reading ∷ [])
        (nothing_watched, channel 5 0 new)
      ≡ some (p', channel 5 4 j))
    × Watches function_epoll p' 5 4 j
    × ((other : ℕ) → other ≢ 5 → p'.epoll other ≡ none)
requests-Watched_example =
    requests-Watched function_epoll (enable_reading ∷ enable_writing ∷ disable_reading ∷ [])
      nothing_watched 5 (wish false false) new (refl, refl, refl)
