-- ===== src/Reactor/Tracking.antt =====
-- include/reactor.h: the two maps of the reactor and the interest list of its epoll instance.
use async_event_loop.Base.{
  int_eq, ℕ, ℤ, pos, minus_one, ◌≡◌, ◌≢◌, refl, sym, ◌∙◌, inl, inr, Bool-cases, some, arith,
  int_eqb, failed, ap, false, true, ◌⊎◌, if◌then◌else◌,
}
use async_event_loop.UnorderedMap.{lookups, find, find-assign, assign}
use async_event_loop.SocketUtilities.{add_epoll_interest, modify_epoll_interest}
use async_event_loop.ThreadSafeMap.{insert, get?}
use async_event_loop.Kernel.{Kernel, Event, EpollLaws}
use async_event_loop.Kernel.Flags.{epollin, epoll_ctl_add, epoll_ctl_mod, epoll_ctl_del}
use async_event_loop.SocketUtilities.Interest.{
  Watches, add_epoll_interest-Watches, modify_epoll_interest-Watches, remove_epoll_interest_fails,
}
use async_event_loop.Outcome.{Outcome, ok, ◌>>=◌}
use async_event_loop.Reactor.{
  Reactor, EventPriority, listen_sock, Entry, EventQueue, finish_track, async_accept, add_track,
  modify_track, remove_track, run_callback,
}

-- The calls on epoll fail where `epoll_ctl` does.
module _ (k : Kernel) (e d : ℤ) (mask : ℕ) (s : k.State) where
  add_epoll_interest-failed :
      failed (add_epoll_interest k e d mask s).0
      ≡ failed (k.epoll_ctl e epoll_ctl_add d (some (record { events = mask; fd = d })) s).0
  unfolding add_epoll_interest
  add_epoll_interest-failed = ground arith

  modify_epoll_interest-failed :
      failed (modify_epoll_interest k e d mask s).0
      ≡ failed (k.epoll_ctl e epoll_ctl_mod d (some (record { events = mask; fd = d })) s).0
  unfolding modify_epoll_interest
  modify_epoll_interest-failed = ground arith

-- Where the maps and the interest list agree: what epoll watches has a callback, and what has a
-- callback has a priority.
module _ (k : Kernel) {Cb App : Type 0} where
  pub record IsTracked (r : Reactor k Cb App) : Type 0 where
    pub watched :
        (d : ℤ) (mask : ℕ)
        → k.interest r.kernel r.epollfd_ d ≡ some mask
        → (cb : Cb) × (find d r.event_callback_.map_ ≡ some cb)
    pub ranked :
        (d : ℤ) (cb : Cb)
        → find d r.event_callback_.map_ ≡ some cb
        → (p : EventPriority) × (find d r.event_priority_.map_ ≡ some p)

  -- What a call for `d` came to, from the reactor `r`: it succeeds where `epoll_ctl` does, with the
  -- mask, the callback and the priority recorded for `d` and nothing else changed, and otherwise
  -- returns -1 with all three as before.
  abbrev pub Tracks :
      ℤ → ℤ → ℕ → EventPriority → Cb → Reactor k Cb App → ℤ × Reactor k Cb App → Type 0
  Tracks op d mask p cb r (status, r') =
      let done = k.epoll_ctl r.epollfd_ op d (some (record { events = mask; fd = d })) r.kernel in
      ((failed done.0 ≡ false)
        × (status ≡ pos 0)
        × ((c : ℤ)
            → (k.interest r'.kernel r.epollfd_ c
                ≡ (if int_eqb d c then some mask else k.interest r.kernel r.epollfd_ c))
              × (find c r'.event_callback_.map_
                  ≡ (if int_eqb d c then some cb else find c r.event_callback_.map_))
              × (find c r'.event_priority_.map_
                  ≡ (if int_eqb d c then some p else find c r.event_priority_.map_))))
      ⊎ ((failed done.0 ≡ true)
          × (status ≡ minus_one)
          × ((c : ℤ) → k.interest r'.kernel r.epollfd_ c ≡ k.interest r.kernel r.epollfd_ c)
          × (r'.event_callback_ ≡ r.event_callback_)
          × (r'.event_priority_ ≡ r.event_priority_))

module _ (k : Kernel) (laws : EpollLaws k) {Cb App : Type 0} where
  finish_track-Tracks :
      (op d : ℤ) (mask : ℕ) (p : EventPriority) (cb : Cb) (r : Reactor k Cb App)
      (done : ℤ × k.State)
      → failed done.0
        ≡ failed (k.epoll_ctl r.epollfd_ op d (some (record { events = mask; fd = d })) r.kernel).0
      → Watches k r.epollfd_ d mask r.kernel done
      → Tracks k op d mask p cb r (finish_track k d p cb r done)
  unfolding finish_track insert
  finish_track-Tracks op d mask p cb r (status, s') same (inl (e, f)) =
      rw e
        (inl (sym same ∙ ap failed e, refl, λ c. (f c, find-assign d c cb _, find-assign d c p _)))
  finish_track-Tracks op d mask p cb r (status, s') same (inr (e, f)) =
      rw e (inr (sym same ∙ ap failed e, refl, f, refl, refl))

  finish_track-IsTracked :
      (d : ℤ) (mask : ℕ) (p : EventPriority) (cb : Cb) (r : Reactor k Cb App) (done : ℤ × k.State)
      → Watches k r.epollfd_ d mask r.kernel done
      → IsTracked k r
      → IsTracked k (finish_track k d p cb r done).1
  unfolding finish_track insert
  finish_track-IsTracked d mask p cb r (status, s') (inl (e, f)) t =
      rw e
        (record { watched = λ c m w. watched_insert c m w; ranked = λ c b w. ranked_insert c b w })
    where
      watched_insert :
          (c : ℤ) (m : ℕ)
          → k.interest s' r.epollfd_ c ≡ some m
          → (b : Cb) × (find c (assign d cb r.event_callback_.map_) ≡ some b)
      watched_insert c m w = elim (Bool-cases (int_eqb d c)) [
        | inl same ↦ (cb, grind lookups)
        | inr differs ↦ let (b, found) = t.watched c m (ground (arith, f c)) in (b, grind lookups)
      ]

      ranked_insert :
          (c : ℤ) (b : Cb)
          → find c (assign d cb r.event_callback_.map_) ≡ some b
          → (q : EventPriority) × (find c (assign d p r.event_priority_.map_) ≡ some q)
      ranked_insert c b w = elim (Bool-cases (int_eqb d c)) [
        | inl same ↦ (p, grind lookups)
        | inr differs ↦ let (q, found) = t.ranked c b (grind lookups) in (q, grind lookups)
      ]
  finish_track-IsTracked d mask p cb r (status, s') (inr (e, f)) t =
      rw e (record { watched = λ c m w. t.watched c m (sym (f c) ∙ w); ranked = t.ranked })

  pub async_accept-Tracks :
      (d : ℤ) (cb : Cb) (r : Reactor k Cb App)
      → Tracks k epoll_ctl_add d epollin listen_sock cb r (async_accept k d cb r)
  unfolding async_accept
  async_accept-Tracks d cb r =
      finish_track-Tracks epoll_ctl_add d epollin listen_sock cb r _
        (add_epoll_interest-failed k r.epollfd_ d epollin r.kernel)
        (add_epoll_interest-Watches k laws r.epollfd_ d epollin r.kernel)

  -- `asyncAccept`, `addTrack` and `modifyTrack` succeed where their `epoll_ctl` does. Then the interest
  -- list has the mask for the descriptor, and the maps have its callback and its priority, with nothing
  -- else changed; otherwise they return -1, with the list and both maps as before. Either way the maps
  -- stay in step with the list: what is watched has a callback, and what has a callback a priority.
  pub track-IsTracked :
      (d : ℤ) (mask : ℕ) (p : EventPriority) (cb : Cb) (r : Reactor k Cb App)
      → IsTracked k r
      → (Tracks k epoll_ctl_add d epollin listen_sock cb r (async_accept k d cb r)
          × IsTracked k (async_accept k d cb r).1)
        × (Tracks k epoll_ctl_add d mask p cb r (add_track k d mask p cb r)
            × IsTracked k (add_track k d mask p cb r).1)
        × (Tracks k epoll_ctl_mod d mask p cb r (modify_track k d mask p cb r)
            × IsTracked k (modify_track k d mask p cb r).1)
  unfolding async_accept add_track modify_track
  track-IsTracked d mask p cb r t =
      let added = add_epoll_interest-Watches k laws r.epollfd_ d mask r.kernel in
      let modified = modify_epoll_interest-Watches k laws r.epollfd_ d mask r.kernel in
      (
        (
          async_accept-Tracks d cb r,
          finish_track-IsTracked d epollin listen_sock cb r _
              (add_epoll_interest-Watches k laws r.epollfd_ d epollin r.kernel) t,
        ),
        (
          finish_track-Tracks epoll_ctl_add d mask p cb r _
              (add_epoll_interest-failed k r.epollfd_ d mask r.kernel) added,
          finish_track-IsTracked d mask p cb r _ added t,
        ),
        (
          finish_track-Tracks epoll_ctl_mod d mask p cb r _
              (modify_epoll_interest-failed k r.epollfd_ d mask r.kernel) modified,
          finish_track-IsTracked d mask p cb r _ modified t,
        ),
      )

  -- `removeTrack` forgets nothing, unless the descriptor is 1, 2 or 3: it returns -1, and the maps and
  -- the interest list are as before.
  pub remove_track_fails :
      (d : ℤ) (r : Reactor k Cb App)
      → d ≢ epoll_ctl_add
      → d ≢ epoll_ctl_mod
      → d ≢ epoll_ctl_del
      → let (status, r') = remove_track k d r in
        (status ≡ minus_one)
        × (r'.event_callback_ ≡ r.event_callback_)
        × (r'.event_priority_ ≡ r.event_priority_)
        × ((c : ℤ) → k.interest r'.kernel r'.epollfd_ c ≡ k.interest r.kernel r.epollfd_ c)
  unfolding remove_track
  remove_track_fails d r not_add not_mod not_del =
      let (e, f) =
        remove_epoll_interest_fails k laws r.epollfd_ d r.kernel not_add not_mod not_del in
      rw (e, remove_track) (refl, refl, refl, f)

-- While the maps are in step with the interest list, `runCallback` finds a callback for every event
-- on a descriptor that epoll watches: what it does is to run that callback and return 0.
pub run_callback_found :
    (k : Kernel) (pq : EventQueue) {Cb App : Type 0}
    (run : Cb → Event → Reactor k Cb App → Outcome (Reactor k Cb App)) (e : Entry)
    (r : Reactor k Cb App) (mask : ℕ)
    → IsTracked k r
    → k.interest r.kernel r.epollfd_ e.1.fd ≡ some mask
    → (cb : Cb) × (find e.1.fd r.event_callback_.map_ ≡ some cb)
      × (run_callback k pq run e r ≡ (run cb e.1 r >>= (λ r'. ok (pos 0, r'))))
unfolding run_callback get?
run_callback_found k pq run e r mask t w =
    let (cb, found) = t.watched e.1.fd mask w in (cb, found, rw (found, run_callback))
