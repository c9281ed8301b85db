-- ===== src/Watcher/Wakes.antt =====
-- Which subscribers a change reaches (honker-core/src/lib.rs).
use honker.Watcher.{
  replaced, Query, Identity, Channel, unreadable, same, locked, on_change, Answers, version, failed,
  clear_senders, not_due, refused, poll_round, reopened, run_poll_loop, check_identity, Reopen,
  Poll, poll_query, poll_reopen, poll_while, poll_body,
}
use honker.Base.{
  ℕ, ◌≡◌, Bool, true, false, not, ◌||◌, List, [], ◌∷◌, arith, ◌==◌, All, refl, inl, inr, Bool-cases,
  sym, ap, ◌∙◌, subst,
}

-- A subscriber with a receiver has a tick to read, or its channel is disconnected.
abbrev pub is_heard : Channel → Bool
is_heard c = not c.receiving || not c.sending || c.ticked

abbrev pub AllHeard : List Channel → Type 0
AllHeard cs = All (λ c. is_heard c ≡ true) cs

on_change-AllHeard : (cs : List Channel) → AllHeard (on_change cs)
on_change-AllHeard [] = tt
on_change-AllHeard (c ∷ cs) = (ground arith, on_change-AllHeard cs)

clear_senders-AllHeard : (cs : List Channel) → AllHeard (clear_senders cs)
clear_senders-AllHeard [] = tt
clear_senders-AllHeard (c ∷ cs) = (ground arith, clear_senders-AllHeard cs)

abbrev pub differs : Query → ℕ → Bool
differs (version v) last = not (v == last)
differs locked last = false
differs failed last = true

abbrev pub alarms : Identity → Bool
alarms not_due = false
alarms same = false
alarms replaced = true
alarms unreadable = true

-- In some round a query answers another version than `last` or fails, or the file cannot be read or
-- was replaced.
abbrev pub sees : ℕ → List Answers → Bool
sees last [] = false
sees last (a ∷ rest) = differs a.query last || alarms a.identity || sees last rest

query-AllHeard : (q : Query) (p : Poll) → AllHeard p.channels → AllHeard (poll_query q p).channels
query-AllHeard (version v) p h = elim (Bool-cases (v == p.last_version)) [
  | inl e ↦ rw e h
  | inr e ↦ rw e (on_change-AllHeard p.channels)
]
query-AllHeard locked p h = h
query-AllHeard failed p h = on_change-AllHeard p.channels

reopen-AllHeard :
    (r : Reopen) (p : Poll) → AllHeard p.channels → AllHeard (poll_reopen r p).channels
reopen-AllHeard (reopened v) p h = h
reopen-AllHeard refused p h = h

identity-AllHeard :
    (i : Identity) (p : Poll) → AllHeard p.channels → AllHeard (check_identity i p).channels
identity-AllHeard not_due p h = h
identity-AllHeard same p h = h
identity-AllHeard replaced p h = clear_senders-AllHeard p.channels
identity-AllHeard unreadable p h = on_change-AllHeard p.channels

alarm-AllHeard :
    (i : Identity) (p : Poll) → alarms i ≡ true → AllHeard (check_identity i p).channels
alarm-AllHeard not_due p h = absurd (ground (arith, h))
alarm-AllHeard same p h = absurd (ground (arith, h))
alarm-AllHeard replaced p h = clear_senders-AllHeard p.channels
alarm-AllHeard unreadable p h = on_change-AllHeard p.channels

differs-AllHeard :
    (q : Query) (p : Poll) → differs q p.last_version ≡ true → AllHeard (poll_query q p).channels
differs-AllHeard (version v) p h =
    let other : (v == p.last_version) ≡ false = ground (arith, h) in
    rw other (on_change-AllHeard p.channels)
differs-AllHeard locked p h = absurd (ground (arith, h))
differs-AllHeard failed p h = on_change-AllHeard p.channels

body-AllHeard :
    (connected : Bool) (a : Answers) (p : Poll)
    → AllHeard p.channels
    → AllHeard (poll_body connected a p).channels
body-AllHeard true a p h = identity-AllHeard a.identity _ (query-AllHeard a.query p h)
body-AllHeard false a p h = identity-AllHeard a.identity _ (reopen-AllHeard a.reopen p h)

while-AllHeard :
    (running : Bool) (a : Answers) (p : Poll)
    → AllHeard p.channels
    → AllHeard (poll_while running a p).channels
while-AllHeard true a p h = body-AllHeard p.connected a p h
while-AllHeard false a p h = h

round-AllHeard : (a : Answers) (p : Poll) → AllHeard p.channels → AllHeard (poll_round a p).channels
unfolding poll_round
round-AllHeard a p h = while-AllHeard p.running a p h

round_eq :
    (a : Answers) (p : Poll)
    → p.running ≡ true
    → p.connected ≡ true
    → poll_round a p ≡ check_identity a.identity (poll_query a.query p)
unfolding poll_round
round_eq a p r k = ap (λ b. poll_while b a p) r ∙ ap (λ b. poll_body b a p) k

loop-AllHeard :
    (rounds : List Answers) (p : Poll)
    → AllHeard p.channels
    → AllHeard (run_poll_loop rounds p).channels
unfolding run_poll_loop
loop-AllHeard [] p h = h
loop-AllHeard (a ∷ rest) p h = loop-AllHeard rest (poll_round a p) (round-AllHeard a p h)

still :
    (q : Query) (i : Identity) (p : Poll)
    → differs q p.last_version ≡ false
    → alarms i ≡ false
    → check_identity i (poll_query q p) ≡ p
still q replaced p d n = absurd (ground (arith, n))
still q unreadable p d n = absurd (ground (arith, n))
still failed i p d n = absurd (ground (arith, d))
still locked not_due p d n = refl
still locked same p d n = refl
still (version v) not_due p d n =
    let e : (v == p.last_version) ≡ true = ground (arith, d) in rw e refl
still (version v) same p d n = let e : (v == p.last_version) ≡ true = ground (arith, d) in rw e refl

seen-AllHeard :
    (q : Query) (i : Identity) (p : Poll)
    → (differs q p.last_version || alarms i) ≡ true
    → AllHeard (check_identity i (poll_query q p)).channels
seen-AllHeard q i p h = elim (Bool-cases (alarms i)) [
  | inl n ↦ alarm-AllHeard i _ n
  | inr n ↦ identity-AllHeard i _ (differs-AllHeard q p (ground (arith, h, n)))
]

-- When a watcher that runs and is connected sees a change in some round, every subscriber whose
-- receiver exists has a tick after the rounds, if none was received meanwhile, or its channel is
-- disconnected: a query that the database's lock refuses, a full channel, a receiver that was dropped,
-- and the end of the thread lose no wake.
pub run_poll_loop_wakes :
    (rounds : List Answers) (p : Poll)
    → p.running ≡ true
    → p.connected ≡ true
    → sees p.last_version rounds ≡ true
    → AllHeard (run_poll_loop rounds p).channels
unfolding run_poll_loop
run_poll_loop_wakes [] p r k h = absurd (ground (arith, h))
run_poll_loop_wakes (a ∷ rest) p r k h =
    elim (Bool-cases (differs a.query p.last_version || alarms a.identity)) [
      | inl e ↦ loop-AllHeard rest (poll_round a p) (
          subst (λ (q : Poll). AllHeard q.channels) (sym (round_eq a p r k))
            (seen-AllHeard a.query a.identity p e))
      | inr e ↦
          let quiet : poll_round a p ≡ p =
            round_eq a p r k ∙ still a.query a.identity p (ground (arith, e)) (ground (arith, e)) in
          subst (λ (q : Poll). AllHeard (run_poll_loop rest q).channels) (sym quiet)
            (run_poll_loop_wakes rest p r k (ground (arith, h, e)))
    ]
