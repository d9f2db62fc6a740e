-- ===== src/Net/Poller.antt =====
-- base/EPollPoller.cpp. The kernel's epoll set is a parameter: `interest` is what it would answer of
-- a descriptor, and `ctl` is `epoll_ctl`, with what epoll_ctl(2) documents of it as laws.
use mutty.Common.{
  ℕ, ◌≡◌, refl, ◌≢◌, inl, inr, Bool, true, false, ◌&&◌, Option, none, some, ◌==◌, if◌then◌else◌,
  Bool-cases, eq→==,
}

-- `EPOLL_CTL_ADD`, `EPOLL_CTL_MOD`, `EPOLL_CTL_DEL`
pub data Operation : Type 0 where
  ctl_add ctl_mod ctl_del : Operation

pub record Epoll : Type 1 where
  pub Interests : Type 0
  pub interest : Interests → ℕ → Option ℕ
  pub ctl : Operation → ℕ → ℕ → Interests → Interests
  -- A descriptor that is absent can be added, one that is present changed or removed.
  pub add_absent :
      (s : Interests) (fd events : ℕ)
      → interest s fd ≡ none
      → interest (ctl ctl_add fd events s) fd ≡ some events
  pub mod_present :
      (s : Interests) (fd events old : ℕ)
      → interest s fd ≡ some old
      → interest (ctl ctl_mod fd events s) fd ≡ some events
  pub del_present :
      (s : Interests) (fd events old : ℕ)
      → interest s fd ≡ some old
      → interest (ctl ctl_del fd events s) fd ≡ none
  -- No call touches another descriptor.
  pub ctl_others :
      (op : Operation) (s : Interests) (fd events other : ℕ)
      → other ≢ fd
      → interest (ctl op fd events s) other ≡ interest s other

-- `kNew`, `kAdded`, `kDeleted`
pub data Index : Type 0 where
  new added deleted : Index

-- The fields of a channel that the poller reads and writes.
pub record Channel : Type 0 where
  pub fd : ℕ
  pub events : ℕ
  pub index : Index

abbrev pub channel : ℕ → ℕ → Index → Channel
channel fd events i = record { fd = fd; events = events; index = i }

abbrev pub update : (ℕ → Bool) → ℕ → Bool → ℕ → Bool
update f k v j = if j == k then v else f j

module _ (e : Epoll) where
  open e use {Interests, interest, ctl, add_absent, mod_present, del_present, ctl_others}

  -- `channels` tells at which descriptors the map holds a channel, the one in hand.
  pub record Poller : Type 0 where
    pub channels : ℕ → Bool
    pub epoll : Interests

  -- `none` is a failed assertion.
  unfoldable pub update_channel : Poller → Channel → Option (Poller × Channel)
  update_channel p c = elim c.index [
    | new ↦
        if p.channels c.fd
        then none
        else some (
          record {
            channels = update p.channels c.fd true;
            epoll = ctl ctl_add c.fd c.events p.epoll;
          },
          record c { index = added },
        )
    | deleted ↦
        if p.channels c.fd
        then some
            (record p { epoll = ctl ctl_add c.fd c.events p.epoll }, record c { index = added })
        else none
    | added ↦
        if p.channels c.fd
        then (if c.events == 0
            then some (
              record p { epoll = ctl ctl_del c.fd c.events p.epoll },
              record c { index = deleted },
            )
            else some (record p { epoll = ctl ctl_mod c.fd c.events p.epoll }, c))
        else none
  ]

  unfoldable pub remove_channel : Poller → Channel → Option (Poller × Channel)
  remove_channel p c =
      let p' = record p { channels = update p.channels c.fd false } in
      if p.channels c.fd && c.events == 0
      then elim c.index [
        | new ↦ none
        | added ↦
            some (record p' { epoll = ctl ctl_del c.fd c.events p.epoll }, record c { index = new })
        | deleted ↦ some (p', record c { index = new })
      ]
      else none

  -- The channel's index tells what the map and the kernel hold of its descriptor.
  abbrev pub Tracks : Poller → ℕ → Index → Type 0
  Tracks p fd new = (p.channels fd ≡ false) × (interest p.epoll fd ≡ none)
  Tracks p fd added = (p.channels fd ≡ true) × ((events : ℕ) × (interest p.epoll fd ≡ some events))
  Tracks p fd deleted = (p.channels fd ≡ true) × (interest p.epoll fd ≡ none)

  abbrev pub is_added : Index → Bool
  is_added added = true
  is_added i = false

  -- What a call leaves: the index is right again, the kernel watches `watched` of this descriptor,
  -- and nothing has changed for the others.
  pub record Updated (p : Poller) (c : Channel) (watched : Option ℕ) (p' : Poller) (c' : Channel)
      : Type 0 where
    pub tracks : Tracks p' c.fd c'.index
    pub watches : interest p'.epoll c.fd ≡ watched
    pub others : (fd : ℕ) → fd ≢ c.fd → interest p'.epoll fd ≡ interest p.epoll fd
    pub same : (c'.fd ≡ c.fd) × (c'.events ≡ c.events)

  -- While the index tracks the kernel, `updateChannel` fails no assertion, and afterwards the kernel
  -- watches exactly the channel's events, or nothing if a channel that was added wants no event.
  pub update_channel-Updated :
      (p : Poller) (fd events : ℕ) (i : Index)
      → Tracks p fd i
      → let c = channel fd events i in
        (p' : Poller) × (c' : Channel) × (update_channel p c ≡ some (p', c'))
        × Updated p c (if is_added i && events == 0 then none else some events) p' c'
  unfolding update_channel
  update_channel-Updated p fd events new t =
      let epoll = ctl ctl_add fd events p.epoll in
      rw t.0 (
        record { channels = update p.channels fd true; epoll = epoll },
        channel fd events added,
        refl,
        record {
          tracks = (rw (eq→== fd fd refl), (events, add_absent p.epoll fd events t.1));
          watches = add_absent p.epoll fd events t.1;
          others = λ other h. ctl_others ctl_add p.epoll fd events other h;
          same = (refl, refl);
        },
      )
  update_channel-Updated p fd events deleted t = rw t.0 (
    record p { epoll = ctl ctl_add fd events p.epoll },
    channel fd events added,
    refl,
    record {
      tracks = (t.0, (events, add_absent p.epoll fd events t.1));
      watches = add_absent p.epoll fd events t.1;
      others = λ other h. ctl_others ctl_add p.epoll fd events other h;
      same = (refl, refl);
    },
  )
  update_channel-Updated p fd events added (t, (old, w)) = elim (Bool-cases (events == 0)) [
    | inl z ↦
        rw (t, z)
          (
            record p { epoll = ctl ctl_del fd events p.epoll },
            channel fd events deleted,
            refl,
            record {
              tracks = (t, del_present p.epoll fd events old w);
              watches = del_present p.epoll fd events old w;
              others = λ other h. ctl_others ctl_del p.epoll fd events other h;
              same = (refl, refl);
            },
          )
    | inr z ↦
        rw (t, z)
          (
            record p { epoll = ctl ctl_mod fd events p.epoll },
            channel fd events added,
            refl,
            record {
              tracks = (t, (events, mod_present p.epoll fd events old w));
              watches = mod_present p.epoll fd events old w;
              others = λ other h. ctl_others ctl_mod p.epoll fd events other h;
              same = (refl, refl);
            },
          )
  ]

  -- A channel that wants no event and is known to the poller is removed with no failed assertion:
  -- its index is new again, and neither the map nor the kernel keeps its descriptor.
  pub remove_channel-Updated :
      (p : Poller) (fd : ℕ) (i : Index)
      → Tracks p fd i
      → i ≢ new
      → let c = channel fd 0 i in
        (p' : Poller) × (c' : Channel) × (remove_channel p c ≡ some (p', c'))
        × (c'.index ≡ new)
        × Updated p c none p' c'
  unfolding remove_channel
  remove_channel-Updated p fd new t h = absurd (h refl)
  remove_channel-Updated p fd deleted t h = rw t.0 (
    record p { channels = update p.channels fd false },
    channel fd 0 new,
    refl,
    refl,
    record {
      tracks = (rw (eq→== fd fd refl), t.1);
      watches = t.1;
      others = λ other k. refl;
      same = (refl, refl);
    },
  )
  remove_channel-Updated p fd added (t, (old, w)) h = rw t (
    record { channels = update p.channels fd false; epoll = ctl ctl_del fd 0 p.epoll },
    channel fd 0 new,
    refl,
    refl,
    record {
      tracks = (rw (eq→== fd fd refl), del_present p.epoll fd 0 old w);
      watches = del_present p.epoll fd 0 old w;
      others = λ other k. ctl_others ctl_del p.epoll fd 0 other k;
      same = (refl, refl);
    },
  )
