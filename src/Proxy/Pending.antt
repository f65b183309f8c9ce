-- ===== src/Proxy/Pending.antt =====
-- rdp_proxy/proxy.py, `_register_pending_verification` and `_unregister_pending_verification`: the pool
-- of waiting connections and its two limits.
use rdp_on_demand_proxy_serv.Base.{
  ◌⊎◌, Bool, true, some, none, Option, ◌==◌, eq_refl, ℕ, ◌+◌, ◌≤◌, ◌<◌, ◌≡◌, refl, ap, String,
  false, List, [], ◌∷◌, arith, leb, length, eq_iff, Bool-cases, inl, inr,
}
use rdp_on_demand_proxy_serv.Base.Dict.{
  get, get-put, get-pop, Dict, put, pop, entries_where, count-put-le, count-pop-le, count-pop-lt,
  length-put, length-pop-le,
}
use rdp_on_demand_proxy_serv.Proxy.{
  Proxy, Waiting, Settings, limits_of, new_proxy, from_ip, add_waiting,
  register_pending_verification, unregister_pending_verification, Registered,
}

abbrev pub waiting_from : String → Proxy → ℕ
waiting_from ip x = length (entries_where (from_ip ip) x.pending_verifications)

-- The pool and each address's share of it are within the limits, which the constructor keeps at 1
-- or more.
pub record IsBounded (x : Proxy) : Type 0 where
  pub total : length x.pending_verifications ≤ x.limits.max_pending
  pub per_ip : (ip : String) → waiting_from ip x ≤ x.limits.max_pending_per_ip
  pub some_total : 1 ≤ x.limits.max_pending
  pub some_per_ip : 1 ≤ x.limits.max_pending_per_ip

pub new_proxy-IsBounded : (s : Settings) (now : ℕ) → IsBounded (new_proxy s now)
unfolding new_proxy limits_of entries_where
new_proxy-IsBounded s now = record {
  total = omega arith;
  per_ip = λ ip. omega arith;
  some_total = ground arith;
  some_per_ip = ground arith;
}

length-put-le : (d : Dict Waiting) (k : String) (w : Waiting) → length (put d k w) ≤ length d + 1
length-put-le d k w = ground (arith, length-put d k w)

-- The takeover frees one place of the address before it takes one.
replaced_per_ip :
    (x : Proxy) (id : String) (w : Waiting) (old_id : String) (old : Waiting)
    (rest : List (String × Waiting))
    → IsBounded x
    → entries_where (from_ip w.client_ip) x.pending_verifications ≡ (old_id, old) ∷ rest
    → (ip : String)
    → length (entries_where (from_ip ip) (put (pop x.pending_verifications old_id) id w))
      ≤ x.limits.max_pending_per_ip
replaced_per_ip x id w old_id old rest b e ip =
    let room = count-pop-lt (from_ip w.client_ip) x.pending_verifications old_id old rest e in
    ground (
      arith,
      count-put-le (from_ip ip) (pop x.pending_verifications old_id) id w,
      count-pop-le (from_ip ip) x.pending_verifications old_id,
      room,
      b.per_ip ip,
      eq_iff w.client_ip ip,
    )

added_per_ip :
    (x : Proxy) (id : String) (w : Waiting) (old_id : String) (old : Waiting)
    (rest : List (String × Waiting))
    → IsBounded x
    → entries_where (from_ip w.client_ip) x.pending_verifications ≡ (old_id, old) ∷ rest
    → leb x.limits.max_pending_per_ip (length ((old_id, old) ∷ rest)) ≡ false
    → (ip : String)
    → length (entries_where (from_ip ip) (put x.pending_verifications id w))
      ≤ x.limits.max_pending_per_ip
added_per_ip x id w old_id old rest b e free ip =
    let n = ap (λ (l : List (String × Waiting)). length l) e in
    ground (
      arith,
      n,
      count-put-le (from_ip ip) x.pending_verifications id w,
      b.per_ip ip,
      eq_iff w.client_ip ip,
    )

add_waiting-IsBounded :
    (x : Proxy) (id : String) (w : Waiting) (same_ip : List (String × Waiting))
    → IsBounded x
    → length x.pending_verifications < x.limits.max_pending
    → entries_where (from_ip w.client_ip) x.pending_verifications ≡ same_ip
    → IsBounded (add_waiting x id w same_ip).proxy
unfolding add_waiting
add_waiting-IsBounded x id w [] b room e = record {
  total = omega (arith, length-put-le x.pending_verifications id w);
  per_ip = λ ip. ground (
    arith,
    count-put-le (from_ip ip) x.pending_verifications id w,
    b.per_ip ip,
    eq_iff w.client_ip ip,
  );
  some_total = b.some_total;
  some_per_ip = b.some_per_ip;
}
add_waiting-IsBounded x id w ((old_id, old) ∷ rest) b room e =
    elim (Bool-cases (leb x.limits.max_pending_per_ip (length ((old_id, old) ∷ rest)))) [
      | inl full ↦ simp full (record {
        total = omega (
          arith,
          length-put-le (pop x.pending_verifications old_id) id w,
          length-pop-le x.pending_verifications old_id,
        );
        per_ip = λ ip. replaced_per_ip x id w old_id old rest b e ip;
        some_total = b.some_total;
        some_per_ip = b.some_per_ip;
      })
      | inr free ↦ simp free (record {
        total = omega (arith, length-put-le x.pending_verifications id w);
        per_ip = λ ip. added_per_ip x id w old_id old rest b e free ip;
        some_total = b.some_total;
        some_per_ip = b.some_per_ip;
      })
    ]

pub register_pending_verification-IsBounded :
    (x : Proxy) (id : String) (w : Waiting)
    → IsBounded x
    → IsBounded (register_pending_verification x id w).proxy
unfolding register_pending_verification
register_pending_verification-IsBounded x id w b =
    elim (Bool-cases (leb x.limits.max_pending (length x.pending_verifications))) [
      | inl full ↦ simp full b
      | inr room ↦ simp room (add_waiting-IsBounded x id w _ b (ground arith) refl)
    ]

pub unregister_pending_verification-IsBounded :
    (x : Proxy) (id : String) → IsBounded x → IsBounded (unregister_pending_verification x id)
unfolding unregister_pending_verification
unregister_pending_verification-IsBounded x id b = record {
  total = omega (arith, b.total, length-pop-le x.pending_verifications id);
  per_ip = λ ip. omega (arith, b.per_ip ip, count-pop-le (from_ip ip) x.pending_verifications id);
  some_total = b.some_total;
  some_per_ip = b.some_per_ip;
}

-- What a registration does to the pool: the entry is there, no other is new or changed, and at most one
-- other entry, of the same address and named in the answer, is gone.
pub record Joined (x : Proxy) (id : String) (w : Waiting) (r : Registered) : Type 0 where
  pub refused : r.accepted ≡ false → r.proxy ≡ x
  pub joins : r.accepted ≡ true → get r.proxy.pending_verifications id ≡ some w
  pub others :
      (j : String)
      → (id == j) ≡ false
      → (get r.proxy.pending_verifications j ≡ get x.pending_verifications j)
        ⊎ ((get r.proxy.pending_verifications j ≡ none)
            × ((old : Waiting) × (r.replaced ≡ some (j, old)) × (old.client_ip ≡ w.client_ip)))

entries_where-first :
    (p : Waiting → Bool) (d : Dict Waiting) (k : String) (v : Waiting) (rest : Dict Waiting)
    → entries_where p d ≡ (k, v) ∷ rest
    → p v ≡ true
unfolding entries_where
entries_where-first p [] k v rest h = cc
entries_where-first p ((j, w) ∷ d) k v rest h = ground (arith, entries_where-first p d k v rest)

replaced_others :
    (x : Proxy) (id : String) (w : Waiting) (old_id : String) (old : Waiting)
    (rest : List (String × Waiting))
    → entries_where (from_ip w.client_ip) x.pending_verifications ≡ (old_id, old) ∷ rest
    → (j : String) → (id == j) ≡ false
    → let pool = put (pop x.pending_verifications old_id) id w in
      (get pool j ≡ get x.pending_verifications j)
      ⊎ ((get pool j ≡ none)
          × ((v : Waiting) × (◌≡◌ {A = Option (String × Waiting)}
                (some (old_id, old))
                (some (j, v)))
              × (v.client_ip ≡ w.client_ip)))
replaced_others x id w old_id old rest e j h =
    let there = get-put (pop x.pending_verifications old_id) id j w in
    let popped = get-pop x.pending_verifications old_id j in
    elim (Bool-cases (old_id == j)) [
      | inl same ↦
          let same_ip =
            entries_where-first (from_ip w.client_ip) x.pending_verifications old_id old rest e in
          let key : old_id ≡ j = ground (arith, same, eq_iff old_id j) in
          inr (
            ground (arith, there, popped, h, same),
            (
              old,
              ap (λ k. some (k, old)) key,
              ground (arith, same_ip, eq_iff old.client_ip w.client_ip),
            ),
          )
      | inr other ↦ inl (ground (arith, there, popped, h, other))
    ]

add_waiting-Joined :
    (x : Proxy) (id : String) (w : Waiting) (same_ip : List (String × Waiting))
    → entries_where (from_ip w.client_ip) x.pending_verifications ≡ same_ip
    → Joined x id w (add_waiting x id w same_ip)
unfolding add_waiting
add_waiting-Joined x id w [] e = record {
  refused = λ h. cc;
  joins = λ h. ground (arith, get-put x.pending_verifications id id w, eq_refl id);
  others = λ j h. inl (ground (arith, get-put x.pending_verifications id j w));
}
add_waiting-Joined x id w ((old_id, old) ∷ rest) e =
    elim (Bool-cases (leb x.limits.max_pending_per_ip (length ((old_id, old) ∷ rest)))) [
      | inl full ↦ simp full (record {
        refused = λ h. cc;
        joins =
            λ h. ground (arith, get-put (pop x.pending_verifications old_id) id id w, eq_refl id);
        others = λ j h. replaced_others x id w old_id old rest e j h;
      })
      | inr free ↦ simp free (record {
        refused = λ h. cc;
        joins = λ h. ground (arith, get-put x.pending_verifications id id w, eq_refl id);
        others = λ j h. inl (ground (arith, get-put x.pending_verifications id j w));
      })
    ]

-- A registration that is refused changes nothing; one that is accepted puts the connection's entry in the
-- pool, and leaves every other entry as it was but for at most one, of the same address, which it
-- removes and names in its answer.
pub register_pending_verification-Joined :
    (x : Proxy) (id : String) (w : Waiting) → Joined x id w (register_pending_verification x id w)
unfolding register_pending_verification
register_pending_verification-Joined x id w =
    elim (Bool-cases (leb x.limits.max_pending (length x.pending_verifications))) [
      | inl full ↦
          simp full (record { refused = λ h. refl; joins = λ h. cc; others = λ j h. inl refl })
      | inr room ↦ simp room (add_waiting-Joined x id w _ refl)
    ]
