-- ===== src/Standalone/Serving.antt =====
-- src/temp.cpp: where the entries of `fd_map` lead, and what each change of the server does to them.
use async_event_loop.Base.{
  int_tests, int_eq, int_eqb, int_eqb_iff, ℕ, ℤ, ◌<◌, ◌≡◌, ◌≢◌, ◌⊎◌, sym, ◌∙◌, inl, inr, Bool-cases,
  Option, none, some, [], ◌∷◌, ◌++◌, arith, length, length-append, ◌==◌, if◌then◌else◌,
}
use async_event_loop.UnorderedMap.{UnorderedMap, find, find-append}
use async_event_loop.Heap.{
  object, put, object-put_self, object-put_ne, object-new, object-old, length-put,
}
use async_event_loop.Kernel.{Kernel}
use async_event_loop.Standalone.{Requests, Standalone, insert_new}

module _ (k : Kernel) (rs : Requests k) where
  -- The entry of the descriptor points to a connection that is live.
  abbrev pub IsServed : ℤ → Standalone k rs → Type 0
  IsServed d s =
      (p : ℕ) × (find d s.fd_map ≡ some (some p))
      × ((c : rs.HttpConnection) × (object p s.connections ≡ some c))

  module _ (sockfd epollfd : ℤ) where
    -- Every descriptor that epoll watches or that is due, which is that of an event still to be handled,
    -- is the listening socket or leads to a live connection. A pointer in `fd_map` is of an object that
    -- has been made, and no two descriptors share one.
    pub record InOrder (due : ℤ → Type 0) (s : Standalone k rs) : Type 0 where
      pub watched :
          (d : ℤ) (mask : ℕ)
          → k.interest s.kernel epollfd d ≡ some mask
          → (d ≡ sockfd) ⊎ IsServed d s
      pub queued : (d : ℤ) → due d → (d ≡ sockfd) ⊎ IsServed d s
      pub made : (d : ℤ) (p : ℕ) → find d s.fd_map ≡ some (some p) → p < length s.connections
      pub own :
          (d c : ℤ) (p : ℕ)
          → find d s.fd_map ≡ some (some p)
          → find c s.fd_map ≡ some (some p)
          → d ≡ c

    -- Nothing is watched in the second state that is not watched in the first.
    abbrev pub WatchesLess : k.State → k.State → Type 0
    WatchesLess t t' =
        (d : ℤ) (mask : ℕ)
        → k.interest t' epollfd d ≡ some mask
        → k.interest t epollfd d ≡ some mask

    pub kernel-InOrder :
        (due : ℤ → Type 0) (s : Standalone k rs) (t : k.State)
        → WatchesLess s.kernel t
        → InOrder due s
        → InOrder due (record s { kernel = t })
    kernel-InOrder due s t less i = record {
      watched = λ d mask e. i.watched d mask (less d mask e);
      queued = i.queued;
      made = i.made;
      own = i.own;
    }

    pub due-InOrder :
        (due due' : ℤ → Type 0) (s : Standalone k rs)
        → ((d : ℤ) → due' d → due d)
        → InOrder due s
        → InOrder due' s
    due-InOrder due due' s f i = record {
      watched = i.watched;
      queued = λ d h. i.queued d (f d h);
      made = i.made;
      own = i.own;
    }

    IsServed-map :
        (d : ℤ) (s s' : Standalone k rs)
        → (IsServed d s → IsServed d s')
        → (d ≡ sockfd) ⊎ IsServed d s
        → (d ≡ sockfd) ⊎ IsServed d s'
    IsServed-map d s s' f (inl e) = inl e
    IsServed-map d s s' f (inr h) = inr (f h)

    abbrev pub with_object : ℕ → Option rs.HttpConnection → Standalone k rs → Standalone k rs
    with_object p o s = record s { connections = put p o s.connections }

    put-IsServed :
        (p : ℕ) (c' : rs.HttpConnection) (d : ℤ) (s : Standalone k rs)
        → IsServed d s
        → IsServed d (with_object p (some c') s)
    put-IsServed p c' d s (q, found, (b, o)) = elim (Bool-cases (p == q)) [
      | inl eq ↦
          let e : p ≡ q = ground arith in
          (q, found, (c', rw (← e) (object-put_self p (some c') s.connections {a = b} (rw e o))))
      | inr ne ↦ (q, found, (b, object-put_ne p q (some c') s.connections (ground arith) ∙ o))
    ]

    -- Another connection in the place of one.
    pub put-InOrder :
        (due : ℤ → Type 0) (p : ℕ) (c' : rs.HttpConnection) (s : Standalone k rs)
        → InOrder due s
        → InOrder due (with_object p (some c') s)
    put-InOrder due p c' s i = record {
      watched = λ d mask e.
          IsServed-map d s (with_object p (some c') s) (put-IsServed p c' d s) (i.watched d mask e);
      queued = λ d h.
          IsServed-map d s (with_object p (some c') s) (put-IsServed p c' d s) (i.queued d h);
      made = λ d q e. rw (length-put p (some c') s.connections) (i.made d q e);
      own = i.own;
    }

    -- A connection is gone, on a descriptor that is no longer watched and not due.
    pub delete-InOrder :
        (due : ℤ → Type 0) (d : ℤ) (p : ℕ) (s : Standalone k rs) (t : k.State)
        → find d s.fd_map ≡ some (some p)
        → ¬ due d
        → k.interest t epollfd d ≡ none
        → WatchesLess s.kernel t
        → InOrder due s
        → InOrder due (record (with_object p none s) { kernel = t })
    delete-InOrder due d p s t found done closed less i = record {
      watched = λ c mask e.
          IsServed-map c s (record (with_object p none s) { kernel = t })
            (others c (λ same. cc (same, closed, e))) (i.watched c mask (less c mask e));
      queued = λ c h.
          IsServed-map c s (record (with_object p none s) { kernel = t })
            (others c (λ same. done (rw same h))) (i.queued c h);
      made = λ c q e. rw (length-put p none s.connections) (i.made c q e);
      own = i.own;
    }
      where
        others :
            (c : ℤ)
            → d ≢ c
            → IsServed c s
            → IsServed c (record (with_object p none s) { kernel = t })
        others c ne (q, found_c, (b, o)) = elim (Bool-cases (p == q)) [
          | inl eq ↦ let e : p ≡ q = ground arith in absurd (ne (i.own d c p found (rw e found_c)))
          | inr other ↦ (q, found_c, (b, object-put_ne p q none s.connections (ground arith) ∙ o))
        ]

    -- The server with a new client.
    abbrev pub with_client : ℤ → k.State → Standalone k rs → Standalone k rs
    with_client d t s = record {
      kernel = t;
      fd_map = insert_new d (some (length s.connections)) s.fd_map;
      connections = s.connections ++ (some (rs.fresh d) ∷ []);
    }

    find-insert_new :
        (d c : ℤ) (p : Option ℕ) (m : UnorderedMap ℤ (Option ℕ))
        → find d m ≡ none
        → find c (insert_new d p m) ≡ (if int_eqb d c then some p else find c m)
    unfolding insert_new
    find-insert_new d c p m e = rw (e, insert_new) (find-append d c p m e)

    -- An entry is the new client's or was there before.
    insert_new-cases :
        (d c : ℤ) (n q : ℕ) (m : UnorderedMap ℤ (Option ℕ))
        → find d m ≡ none
        → find c (insert_new d (some n) m) ≡ some (some q)
        → ((d ≡ c) × (n ≡ q)) ⊎ (find c m ≡ some (some q))
    insert_new-cases d c n q m unknown e =
        ground (arith, int_eqb_iff d c, find-insert_new d c (some n) m unknown)

    -- A new client is on a descriptor that `fd_map` does not have, and no other is watched that was not.
    pub client-InOrder :
        (due : ℤ → Type 0) (d : ℤ) (s : Standalone k rs) (t : k.State)
        → find d s.fd_map ≡ none
        → ((c : ℤ) (mask : ℕ)
            → k.interest t epollfd c ≡ some mask
            → (c ≡ d) ⊎ (k.interest s.kernel epollfd c ≡ some mask))
        → InOrder due s
        → InOrder due (with_client d t s)
    client-InOrder due d s t unknown more i = record {
      watched = λ c mask e. elim (more c mask e) [
        | inl same ↦ inr (rw same newest)
        | inr before ↦ IsServed-map c s (with_client d t s) (older c) (i.watched c mask before)
      ];
      queued = λ c h. IsServed-map c s (with_client d t s) (older c) (i.queued c h);
      made = λ c q e. elim (insert_new-cases d c (length s.connections) q s.fd_map unknown e) [
        | inl (same, new) ↦ omega (arith, length-append s.connections (some (rs.fresh d) ∷ []))
        | inr old ↦
            omega (arith, i.made c q old, length-append s.connections (some (rs.fresh d) ∷ []))
      ];
      own = λ c b q e f. elim (insert_new-cases d c (length s.connections) q s.fd_map unknown e) [
        | inl (same, new) ↦
            elim (insert_new-cases d b (length s.connections) q s.fd_map unknown f) [
              | inl (same', new') ↦ sym same ∙ same'
              | inr old' ↦ absurd (omega (arith, i.made b q old'))
            ]
        | inr old ↦ elim (insert_new-cases d b (length s.connections) q s.fd_map unknown f) [
          | inl (same', new') ↦ absurd (omega (arith, i.made c q old))
          | inr old' ↦ i.own c b q old old'
        ]
      ];
    }
      where
        newest : IsServed d (with_client d t s)
        newest = (
          length s.connections,
          find-insert_new d d (some (length s.connections)) s.fd_map unknown ∙ grind int_tests,
          (rs.fresh d, object-new (rs.fresh d) s.connections),
        )

        older : (c : ℤ) → IsServed c s → IsServed c (with_client d t s)
        older c (q, found, (b, o)) = (
          q,
          find-insert_new d c (some (length s.connections)) s.fd_map unknown
              ∙ ground (arith, int_eqb_iff d c),
          (b, object-old q (rs.fresh d) s.connections o),
        )
