-- ===== src/Net/Channel/Watching.antt =====
-- What the kernel watches after any sequence of the calls of Channel.h.
use mutty.Common.{
  ℕ, ◌+◌, ◌≡◌, refl, ◌≢◌, ◌∙◌, inl, inr, Bool, true, false, none, some, List, [], ◌∷◌, ◌==◌,
  if◌then◌else◌, Bool-cases, ==→eq, eq→==,
}
use mutty.Net.Poller.{
  Epoll, Poller, Index, new, added, deleted, ctl_add, ctl_mod, ctl_del, channel, update_channel,
}
use mutty.Net.Channel.{
  Request, enable_reading, disable_reading, enable_writing, disable_writing, disable_all, requested,
  request, requests,
}

-- The two interests a channel can have: in reading and in writing.
pub record Interest : Type 0 where
  pub reading : Bool
  pub writing : Bool

abbrev pub wish : Bool → Bool → Interest
wish r w = record { reading = r; writing = w }

-- The mask of an interest: POLLIN and POLLPRI for reading, POLLOUT for writing.
abbrev pub mask : Interest → ℕ
mask i = (if i.reading then 3 else 0) + (if i.writing then 4 else 0)

-- What a sequence of calls asks for: of each wish the last call about it decides.
abbrev pub wanted : Request → Interest → Interest
wanted enable_reading i = record i { reading = true }
wanted disable_reading i = record i { reading = false }
wanted enable_writing i = record i { writing = true }
wanted disable_writing i = record i { writing = false }
wanted disable_all i = wish false false

abbrev pub all_wanted : List Request → Interest → Interest
all_wanted [] i = i
all_wanted (r ∷ rs) i = all_wanted rs (wanted r i)

for_both :
    (P : Bool → Bool → Type 0)
    → P true true
    → P true false
    → P false true
    → P false false
    → (a b : Bool) → P a b
for_both P tt tf ft ff true true = tt
for_both P tt tf ft ff true false = tf
for_both P tt tf ft ff false true = ft
for_both P tt tf ft ff false false = ff

-- The bit operations on a mask are the requests on the interest.
pub requested-mask : (r : Request) (i : Interest) → requested r (mask i) ≡ mask (wanted r i)
unfolding requested
requested-mask disable_all i = refl
requested-mask enable_reading i =
    for_both (λ a b. requested enable_reading (mask (wish a b)) ≡ mask (wish true b)) refl refl refl
      refl i.reading i.writing
requested-mask disable_reading i =
    for_both (λ a b. requested disable_reading (mask (wish a b)) ≡ mask (wish false b)) refl refl
      refl refl i.reading i.writing
requested-mask enable_writing i =
    for_both (λ a b. requested enable_writing (mask (wish a b)) ≡ mask (wish a true)) refl refl refl
      refl i.reading i.writing
requested-mask disable_writing i =
    for_both (λ a b. requested disable_writing (mask (wish a b)) ≡ mask (wish a false)) refl refl
      refl refl i.reading i.writing

module _ (e : Epoll) where
  open e use {interest, add_absent, mod_present, del_present, ctl_others}

  -- What the poller's map and the kernel hold of a channel's descriptor: of an added channel
  -- exactly its mask, of one that is deleted, or was never added, nothing.
  abbrev pub Watches : Poller e → ℕ → ℕ → Index → Type 0
  Watches p fd events new = (p.channels fd ≡ false) × (interest p.epoll fd ≡ none) × (events ≡ 0)
  Watches p fd events added = (p.channels fd ≡ true) × (interest p.epoll fd ≡ some events)
  Watches p fd events deleted = (p.channels fd ≡ true) × (interest p.epoll fd ≡ none) × (events ≡ 0)

  pub record Watched (p : Poller e) (fd events : ℕ) (p' : Poller e) (j : Index) : Type 0 where
    pub watches : Watches p' fd events j
    pub known : j ≢ new
    pub others : (other : ℕ) → other ≢ fd → interest p'.epoll other ≡ interest p.epoll other

  update_channel-Watched :
      (p : Poller e) (fd old events : ℕ) (i : Index)
      → Watches p fd old i
      → (p' : Poller e) × (j : Index) × (update_channel e p (channel fd events i)
          ≡ some (p', channel fd events j))
        × Watched p fd events p' j
  unfolding update_channel
  update_channel-Watched p fd old events new (t, w, z) = rw t (
    _,
    _,
    refl,
    record {
      watches = (rw (eq→== fd fd refl), add_absent p.epoll fd events w);
      known = λ q. cc;
      others = λ other h. ctl_others ctl_add p.epoll fd events other h;
    },
  )
  update_channel-Watched p fd old events deleted (t, w, z) = rw t (
    _,
    _,
    refl,
    record {
      watches = (t, add_absent p.epoll fd events w);
      known = λ q. cc;
      others = λ other h. ctl_others ctl_add p.epoll fd events other h;
    },
  )
  update_channel-Watched p fd old events added (t, w) = elim (Bool-cases (events == 0)) [
    | inl z ↦
        rw (t, z)
          (
            _,
            _,
            refl,
            record {
              watches = (t, del_present p.epoll fd events old w, ==→eq events 0 z);
              known = λ q. cc;
              others = λ other h. ctl_others ctl_del p.epoll fd events other h;
            },
          )
    | inr z ↦
        rw (t, z)
          (
            _,
            _,
            refl,
            record {
              watches = (t, mod_present p.epoll fd events old w);
              known = λ q. cc;
              others = λ other h. ctl_others ctl_mod p.epoll fd events other h;
            },
          )
  ]

  -- One call, on a channel whose mask is that of an interest.
  request-Watched :
      (p : Poller e) (fd : ℕ) (r : Request) (w : Interest) (i : Index)
      → Watches p fd (mask w) i
      → (p' : Poller e) × (j : Index) × (request e r (p, channel fd (mask w) i)
          ≡ some (p', channel fd (mask (wanted r w)) j))
        × Watched p fd (mask (wanted r w)) p' j
  unfolding request
  request-Watched p fd r w i h =
      rw (requested-mask r w) (update_channel-Watched p fd (mask w) (mask (wanted r w)) i h)

  -- On a channel whose index tracks the poller, any sequence of the calls that change its mask fails
  -- no assertion. Afterwards its mask is POLLIN and POLLPRI if the last call about reading asked for
  -- it, with POLLOUT if the last call about writing did; the kernel watches exactly that mask, or
  -- nothing if it is empty and the channel was taken out; and no other descriptor has changed.
  pub requests-Watched :
      (rs : List Request) (p : Poller e) (fd : ℕ) (w : Interest) (i : Index)
      → Watches p fd (mask w) i
      → (p' : Poller e) × (j : Index) × (requests e rs (p, channel fd (mask w) i)
          ≡ some (p', channel fd (mask (all_wanted rs w)) j))
        × Watches p' fd (mask (all_wanted rs w)) j
        × ((other : ℕ) → other ≢ fd → interest p'.epoll other ≡ interest p.epoll other)
  unfolding requests
  requests-Watched [] p fd w i h = (p, i, refl, h, λ other k. refl)
  requests-Watched (r ∷ rs) p fd w i h =
      let (p1, j1, q, one) = request-Watched p fd r w i h in
      let (p2, j, all, watches, others) = requests-Watched rs p1 fd (wanted r w) j1 one.watches in
      (p2, j, rw (requests, q) all, watches, λ other k. others other k ∙ one.others other k)
