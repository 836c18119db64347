-- ===== src/Index/Stops.antt =====
-- Which of the writes and syncs of server/index_v2.c have failed.
use mathlib.Core.Option.{none-ne-some}
use dataman.Base.{ℕ, Option, none, some, List, [], ◌∷◌, ◌++◌, ◌≡◌, refl, ap, sym, ◌∙◌, append_assoc}
use dataman.Index.Device.{next_stop, later_stops}

-- One of these fails.
abbrev pub Fails : List (Option ℕ) → Type 0
Fails [] = ⊥
Fails (none ∷ stops) = Fails stops
Fails (some n ∷ stops) = Unit

-- What the system has done between the first of the two and the second.
pub record Passed (stops stops' : List (Option ℕ)) : Type 0 where
  pub used : List (Option ℕ)
  pub stops_eq : stops ≡ used ++ stops'

-- One of the writes and syncs between the two has failed.
pub record Failed (stops stops' : List (Option ℕ)) : Type 0 where
  pub passed : Passed stops stops'
  pub one : Fails passed.used

pub Passed-refl : (stops : List (Option ℕ)) → Passed stops stops
Passed-refl stops = record { used = []; stops_eq = refl }

joined : (a b c : List (Option ℕ)) (p : Passed a b) (q : Passed b c) → a ≡ (p.used ++ q.used) ++ c
joined a b c p q =
    p.stops_eq
    ∙ ap (λ (s : List (Option ℕ)). p.used ++ s) q.stops_eq
    ∙ sym (append_assoc p.used q.used c)

pub Passed-trans : (a b c : List (Option ℕ)) → Passed a b → Passed b c → Passed a c
Passed-trans a b c p q = record { used = p.used ++ q.used; stops_eq = joined a b c p q }

Fails-later : (a b : List (Option ℕ)) → Fails b → Fails (a ++ b)
Fails-later [] b f = f
Fails-later (none ∷ a) b f = Fails-later a b f
Fails-later (some n ∷ a) b f = tt

Fails-sooner : (a b : List (Option ℕ)) → Fails a → Fails (a ++ b)
Fails-sooner [] b f = absurd f
Fails-sooner (none ∷ a) b f = Fails-sooner a b f
Fails-sooner (some n ∷ a) b f = tt

pub Failed-later : (a b c : List (Option ℕ)) → Passed a b → Failed b c → Failed a c
Failed-later a b c p q = record {
  passed = record { used = p.used ++ q.passed.used; stops_eq = joined a b c p q.passed };
  one = Fails-later p.used q.passed.used q.one;
}

pub Failed-sooner : (a b c : List (Option ℕ)) → Failed a b → Passed b c → Failed a c
Failed-sooner a b c p q = record {
  passed = record { used = p.passed.used ++ q.used; stops_eq = joined a b c p.passed q };
  one = Fails-sooner p.passed.used q.used p.one;
}

pub later_stops-Passed : (stops : List (Option ℕ)) → Passed stops (later_stops stops)
later_stops-Passed [] = record { used = []; stops_eq = refl }
later_stops-Passed (s ∷ stops) = record { used = s ∷ []; stops_eq = refl }

pub later_stops-Failed :
    (stops : List (Option ℕ)) (n : ℕ) → next_stop stops ≡ some n → Failed stops (later_stops stops)
later_stops-Failed [] n h = absurd (none-ne-some n h)
later_stops-Failed (none ∷ stops) n h = absurd (none-ne-some n h)
later_stops-Failed (some m ∷ stops) n h = record {
  passed = record { used = some m ∷ []; stops_eq = refl };
  one = tt;
}
