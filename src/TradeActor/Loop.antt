-- ===== src/TradeActor/Loop.antt =====
-- Rules for the event loops of crates/server/src/actor/trade.rs.
use ctp_system.Prelude.{
  ◌≡◌, refl, sym, ap, ◌∙◌, subst, Bool, true, Option, none, some, List, [], ◌∷◌, ◌++◌, Result, err,
  All, Option-cases, inl, inr,
}
use ctp_system.Protocol.{Failure, text}
use ctp_system.TradeSession.Events.{TradeSessionEvent}
use ctp_system.TradeActor.{Delivery, Status, returned, waiting, drive}

-- The deliveries whose events are all of the kind `quiet`.
abbrev pub Quiet : (TradeSessionEvent → Bool) → List Delivery → Type 0
Quiet quiet = All λ d. (e : TradeSessionEvent) × (d.event ≡ some e) × (quiet e ≡ true)

-- What a round leaves: `P` where it goes round again, `Q` of the result where it returns.
abbrev pub Leaves :
    {L : Type 0}
    → (L → Type 0)
    → (Result Failure (Unit {0}) → L → Type 0)
    → Option (Result Failure (Unit {0}))
    → L
    → Type 0
Leaves P Q none l = P l
Leaves P Q (some r) l = Q r l

abbrev pub Settles :
    {L : Type 0} → (L → Type 0) → (Result Failure (Unit {0}) → L → Type 0) → Status × L → Type 0
Settles P Q (waiting, l) = P l
Settles P Q (returned r ds, l) = Q r l

module _ {L : Type 0} (arrives : Delivery → L → L)
    (body : TradeSessionEvent → L → Option (Result Failure (Unit {0})) × L) where
  -- One delivery on which the body goes round again.
  pub drive-again :
      (d : Delivery) (ds : List Delivery) (l : L) (e : TradeSessionEvent)
      → d.event ≡ some e
      → (body e (arrives d l)).0 ≡ none
      → drive arrives body (d ∷ ds) l ≡ drive arrives body ds (body e (arrives d l)).1
  unfolding drive
  drive-again d ds l e h n = simp (h, n)

  -- One delivery on which the body returns.
  pub drive-return :
      (d : Delivery) (ds : List Delivery) (l : L) (e : TradeSessionEvent)
      (r : Result Failure (Unit {0}))
      → d.event ≡ some e
      → (body e (arrives d l)).0 ≡ some r
      → drive arrives body (d ∷ ds) l ≡ (returned r ds, (body e (arrives d l)).1)
  unfolding drive
  drive-return d ds l e r h n = simp (h, n)

  -- Events on which the body goes round again leave the loop waiting.
  pub drive-waits :
      (quiet : TradeSessionEvent → Bool)
      → ((e : TradeSessionEvent) (l : L) → quiet e ≡ true → (body e l).0 ≡ none)
      → (ds : List Delivery) (l : L) → Quiet quiet ds
      → (drive arrives body ds l).0 ≡ waiting
  unfolding drive
  drive-waits quiet h [] l q = refl
  drive-waits quiet h (d ∷ ds) l ((e, n, k), q) =
      ap (λ (r : Status × L). r.0) (drive-again d ds l e n (h e (arrives d l) k))
      ∙ drive-waits quiet h ds (body e (arrives d l)).1 q

  -- After events on which it went round, the loop goes on with the rest.
  pub drive-append :
      (quiet : TradeSessionEvent → Bool)
      → ((e : TradeSessionEvent) (l : L) → quiet e ≡ true → (body e l).0 ≡ none)
      → (before ds : List Delivery) (l : L) → Quiet quiet before
      → drive arrives body (before ++ ds) l ≡ drive arrives body ds (drive arrives body before l).1
  unfolding drive
  drive-append quiet h [] ds l q = refl
  drive-append quiet h (d ∷ before) ds l ((e, n, k), q) =
      drive-again d (before ++ ds) l e n (h e (arrives d l) k)
      ∙ drive-append quiet h before ds (body e (arrives d l)).1 q
      ∙ ap (λ (r : Status × L). drive arrives body ds r.1)
          (sym (drive-again d before l e n (h e (arrives d l) k)))

  -- After events on which it went round, the loop returns at the first one on which the body does.
  pub drive-first :
      (quiet : TradeSessionEvent → Bool)
      → ((e : TradeSessionEvent) (l : L) → quiet e ≡ true → (body e l).0 ≡ none)
      → (before rest : List Delivery) (d : Delivery) (e : TradeSessionEvent) (l m : L)
      → (r : Result Failure (Unit {0})) → Quiet quiet before
      → d.event ≡ some e
      → body e (arrives d (drive arrives body before l).1) ≡ (some r, m)
      → drive arrives body (before ++ d ∷ rest) l ≡ (returned r rest, m)
  drive-first quiet h before rest d e l m r q k n =
      drive-append quiet h before (d ∷ rest) l q
      ∙ drive-return d rest (drive arrives body before l).1 e r k (ap (λ p. p.0) n)
      ∙ ap (λ p. (returned r rest, p.1)) n

  -- An invariant of the loop that each way out turns into what holds there.
  pub drive-Settles :
      (P : L → Type 0) (Q : Result Failure (Unit {0}) → L → Type 0)
      → ((d : Delivery) (l : L) → P l → P (arrives d l))
      → ((l : L) → P l → Q (err (text "trade session event channel closed")) l)
      → ((e : TradeSessionEvent) (l : L) → P l → Leaves P Q (body e l).0 (body e l).1)
      → (ds : List Delivery) (l : L) → P l
      → Settles P Q (drive arrives body ds l)
  unfolding drive
  drive-Settles P Q ka kc kb [] l h = h
  drive-Settles P Q ka kc kb (d ∷ ds) l h = elim (Option-cases d.event) [
    | inl n ↦ simp n (kc (arrives d l) (ka d l h))
    | inr (e, n) ↦
        let now = kb e (arrives d l) (ka d l h) in
        let next = (body e (arrives d l)).1 in
        elim (Option-cases (body e (arrives d l)).0) [
          | inl go ↦
              subst (Settles P Q) (sym (drive-again d ds l e n go))
                (drive-Settles P Q ka kc kb ds next (subst (λ r. Leaves P Q r next) go now))
          | inr (r, stop) ↦
              subst (Settles P Q) (sym (drive-return d ds l e r n stop))
                (subst (λ r. Leaves P Q r next) stop now)
        ]
  ]

  -- A round that is known to go on, or to return.
  pub drive-round :
      (d : Delivery) (ds : List Delivery) (l m : L) (e : TradeSessionEvent)
      → d.event ≡ some e
      → body e (arrives d l) ≡ (none, m)
      → drive arrives body (d ∷ ds) l ≡ drive arrives body ds m
  drive-round d ds l m e h n =
      drive-again d ds l e h (ap (λ p. p.0) n) ∙ ap (λ p. drive arrives body ds p.1) n
