-- ===== src/Notifications/Life/Counts.antt =====
-- rdp_proxy/notifications.py: how often a message waits, or its deletion was asked for, after an operation.
use rdp_on_demand_proxy_serv.Base.{
  ℕ, ◌+◌, ◌≤◌, ◌≡◌, refl, ap, arith, inl, inr, Bool-cases, String, true, false, List, [], ◌∷◌, ◌++◌,
  nat_eq, if◌then◌else◌, ◌==◌, eq_iff,
}
use rdp_on_demand_proxy_serv.Base.Count.{one_if}
use rdp_on_demand_proxy_serv.Base.Dict.{Dict, put, get-put, get-pop}
use rdp_on_demand_proxy_serv.Notifications.{
  Notifier, waiting, delete_all, record_verification, on_verification_approved, is_among, remove,
  put_or_pop, delete_verification_message_after_ttl,
}
use rdp_on_demand_proxy_serv.Notifications.Life.{is_pair, tally, drop_one}

abbrev times : ℕ → List ℕ → ℕ
times i [] = 0
times i (m ∷ ids) = one_if (nat_eq m i) + times i ids

pub times-append :
    (i m : ℕ) (ids : List ℕ) → times i (ids ++ (m ∷ [])) ≡ times i ids + one_if (nat_eq m i)
times-append i m [] = omega arith
times-append i m (n ∷ ids) = omega (arith, times-append i m ids)

pub times-remove :
    (i m : ℕ) (ids : List ℕ)
    → is_among m ids ≡ true
    → times i (remove m ids) + one_if (nat_eq m i) ≡ times i ids
times-remove i m [] h = cc
times-remove i m (n ∷ ids) h = ground (arith, times-remove i m ids)

pub times_none : (i : ℕ) (ids : List ℕ) → is_among i ids ≡ false → times i ids ≡ 0
times_none i [] h = refl
times_none i (n ∷ ids) h = ground (arith, times_none i ids)

pub tally-drop_one :
    (k : String) (i : ℕ) (j : String) (m : ℕ) (l : List (String × ℕ))
    → nat_eq (tally j m l) 0 ≡ false
    → tally k i (drop_one j m l) + one_if (is_pair k i j m) ≡ tally k i l
unfolding tally drop_one
tally-drop_one k i j m [] h = cc
tally-drop_one k i j m ((a, b) ∷ l) h =
    ground (arith, tally-drop_one k i j m l, eq_iff a k, eq_iff a j, eq_iff j k)

pub tally-delete_all :
    (k : String) (i : ℕ) (j : String) (ids : List ℕ) (log : List (String × ℕ))
    → tally k i (delete_all j ids log) ≡ (if j == k then times i ids else 0) + tally k i log
unfolding tally delete_all
tally-delete_all k i j [] log = ground arith
tally-delete_all k i j (m ∷ ids) log = ground (arith, tally-delete_all k i j ids ((j, m) ∷ log))

pub waiting-put :
    (d : Dict (List ℕ)) (k j : String) (ids : List ℕ)
    → waiting (put d k ids) j ≡ (if k == j then ids else waiting d j)
waiting-put d k j ids = elim (Bool-cases (k == j)) [
  | inl e ↦ ground (arith, e, get-put d k j ids)
  | inr e ↦ ground (arith, e, get-put d k j ids)
]

pub waiting-put_or_pop :
    (d : Dict (List ℕ)) (k j : String) (ids : List ℕ)
    → waiting (put_or_pop d k ids) j ≡ (if k == j then ids else waiting d j)
waiting-put_or_pop d k j [] = elim (Bool-cases (k == j)) [
  | inl e ↦ ground (arith, e, get-pop d k j)
  | inr e ↦ ground (arith, e, get-pop d k j)
]
waiting-put_or_pop d k j (m ∷ ids) = waiting-put d k j (m ∷ ids)

-- How many messages with this token and id wait in a notifier.
abbrev pub held : String → ℕ → Notifier → ℕ
held k i n = times i (waiting n.telegram_verification_messages k)

abbrev pub deleted : String → ℕ → Notifier → ℕ
deleted k i n = tally k i n.verification_deletes

pub held-record :
    (k : String) (i : ℕ) (n : Notifier) (token : String) (m : ℕ)
    → held k i (record_verification n token m) ≡ held k i n + one_if (is_pair k i token m)
unfolding record_verification
held-record k i n token m =
    let d = n.telegram_verification_messages in
    let ids = waiting d token in
    let new = ids ++ (m ∷ []) in
    ground (arith, ap (times i) (waiting-put d token k new), times-append i m ids, eq_iff token k)

-- The messages that an ended timer does not leave waiting are deleted.
pub after_ttl-sum :
    (k : String) (i : ℕ) (n : Notifier) (token : String) (m : ℕ)
    → held k i (delete_verification_message_after_ttl n token m)
        + deleted k i (delete_verification_message_after_ttl n token m)
      ≡ held k i n + deleted k i n
unfolding delete_verification_message_after_ttl tally
after_ttl-sum k i n token m =
    let d = n.telegram_verification_messages in
    let ids = waiting d token in
    elim (Bool-cases n.cfg.telegram_enabled) [
      | inr off ↦ rw off refl
      | inl on ↦ elim (Bool-cases (is_among m ids)) [
        | inl e ↦
            rw (on, e) ground
              (
                arith,
                ap (times i) (waiting-put_or_pop d token k (remove m ids)),
                times-remove i m ids e,
                eq_iff token k,
              )
        | inr e ↦ rw (on, e) refl
      ]
    ]

-- An ended timer leaves no more messages than the timers that are left.
pub after_ttl-timed :
    (k : String) (i : ℕ) (n : Notifier) (token : String) (m before after : ℕ)
    → n.cfg.telegram_enabled ≡ true
    → held k i n ≤ before
    → after + one_if (is_pair k i token m) ≡ before
    → held k i (delete_verification_message_after_ttl n token m) ≤ after
unfolding delete_verification_message_after_ttl
after_ttl-timed k i n token m before after on h t =
    let d = n.telegram_verification_messages in
    let ids = waiting d token in
    elim (Bool-cases (is_among m ids)) [
      | inl e ↦
          rw (on, e) ground
            (
              arith,
              ap (times i) (waiting-put_or_pop d token k (remove m ids)),
              times-remove i m ids e,
              eq_iff token k,
              h,
              t,
            )
      | inr e ↦ rw (on, e) ground (arith, times_none m ids e, eq_iff token k, h, t)
    ]

pub approved-sum :
    (k : String) (i : ℕ) (n : Notifier) (token : String)
    → held k i (on_verification_approved n token) + deleted k i (on_verification_approved n token)
      ≡ held k i n + deleted k i n
unfolding on_verification_approved
approved-sum k i n token =
    let d = n.telegram_verification_messages in
    elim (Bool-cases (token == "")) [
      | inl e ↦ rw e refl
      | inr e ↦ elim (Bool-cases n.cfg.telegram_enabled) [
        | inr off ↦ rw (e, off) refl
        | inl on ↦
            rw (e, on) ground
              (
                arith,
                get-pop d token k,
                tally-delete_all k i token (waiting d token) n.verification_deletes,
                eq_iff token k,
              )
      ]
    ]

pub approved-held :
    (k : String) (i : ℕ) (n : Notifier) (token : String)
    → held k i (on_verification_approved n token) ≤ held k i n
unfolding on_verification_approved
approved-held k i n token =
    let d = n.telegram_verification_messages in
    elim (Bool-cases (token == "")) [
      | inl e ↦ rw e (omega arith)
      | inr e ↦ elim (Bool-cases n.cfg.telegram_enabled) [
        | inr off ↦ rw (e, off) (omega arith)
        | inl on ↦ rw (e, on) ground (arith, get-pop d token k)
      ]
    ]
