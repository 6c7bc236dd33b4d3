-- ===== src/Prelude/Prog.antt =====
-- Programs that make calls and go on with the answers: their runs against a system that answers by
-- what was asked before, what they ensure whatever is answered, and the interleaving of several.
use mathlib.Core.List.{List, [], ◌∷◌, ◌++◌}
use mathlib.Core.Path.{◌≡◌, refl}
use mathlib.Core.Logic.{◌⊎◌}
use asterkube.Prelude.Lists.{All}

pub data Prog (C R A : Type 0) : Type 0 where
  ret : A → Prog C R A
  call : C → (R → Prog C R A) → Prog C R A

-- The calls made so far with their answers, the last one first, and what answers.
abbrev pub History : Type 0 → Type 0 → Type 0
History C R = List (C × R)

abbrev pub System : Type 0 → Type 0 → Type 0
System C R = History C R → C → R

module _ {C R : Type 0} where
  abbrev pub bind : {A B : Type 0} → Prog C R A → (A → Prog C R B) → Prog C R B
  bind (ret a) f = f a
  bind (call c k) f = call c (λ r. bind (k r) f)

  infixl 5 ◌>>=◌ ◌>>◌
  abbrev pub ◌>>=◌ : {A B : Type 0} → Prog C R A → (A → Prog C R B) → Prog C R B
  p >>= f = bind p f

  abbrev pub ◌>>◌ : {A B : Type 0} → Prog C R A → Prog C R B → Prog C R B
  p >> q = bind p (λ _. q)

  abbrev pub ask : C → Prog C R R
  ask c = call c (λ r. ret r)

  abbrev pub run : {A : Type 0} → System C R → Prog C R A → History C R → A × History C R
  run sys (ret a) h = (a, h)
  run sys (call c k) h = let r = sys h c in run sys (k r) ((c, r) ∷ h)

  pub run-bind :
      {A B : Type 0} (sys : System C R) (p : Prog C R A) (f : A → Prog C R B) (h : History C R)
      → run sys (bind p f) h ≡ run sys (f (run sys p h).0) (run sys p h).1
  run-bind sys (ret a) f h = refl
  run-bind sys (call c k) f h = let r = sys h c in run-bind sys (k r) f ((c, r) ∷ h)

  -- A call with its answer that is among those made.
  abbrev pub Occurs : (C × R → Type 0) → History C R → Type 0
  Occurs P [] = ⊥
  Occurs P (x ∷ h) = P x ⊎ Occurs P h

  -- What holds at the end of every run from a history.
  abbrev pub Ensures : {A : Type 0} → (A → History C R → Type 0) → Prog C R A → History C R → Type 0
  Ensures Q (ret a) h = Q a h
  Ensures Q (call c k) h = (r : R) → Ensures Q (k r) ((c, r) ∷ h)

  pub Ensures-run :
      {A : Type 0} (Q : A → History C R → Type 0) (sys : System C R) (p : Prog C R A)
      (h : History C R)
      → Ensures Q p h
      → Q (run sys p h).0 (run sys p h).1
  Ensures-run Q sys (ret a) h e = e
  Ensures-run Q sys (call c k) h e = let r = sys h c in Ensures-run Q sys (k r) ((c, r) ∷ h) (e r)

  pub Ensures-bind :
      {A B : Type 0} (P : A → History C R → Type 0) (Q : B → History C R → Type 0) (p : Prog C R A)
      (f : A → Prog C R B) (h : History C R)
      → Ensures P p h
      → ((a : A) (g : History C R) → P a g → Ensures Q (f a) g)
      → Ensures Q (bind p f) h
  Ensures-bind P Q (ret a) f h e k = k a h e
  Ensures-bind P Q (call c p) f h e k = λ r. Ensures-bind P Q (p r) f ((c, r) ∷ h) (e r) k

  pub Ensures-weaken :
      {A : Type 0} (P Q : A → History C R → Type 0) (p : Prog C R A) (h : History C R)
      → Ensures P p h
      → ((a : A) (g : History C R) → P a g → Q a g)
      → Ensures Q p h
  Ensures-weaken P Q (ret a) h e k = k a h e
  Ensures-weaken P Q (call c p) h e k = λ r. Ensures-weaken P Q (p r) ((c, r) ∷ h) (e r) k

  pub Ensures-any :
      {A : Type 0} (Q : A → History C R → Type 0) (p : Prog C R A) (h : History C R)
      → ((a : A) (g : History C R) → Q a g)
      → Ensures Q p h
  Ensures-any Q (ret a) h k = k a h
  Ensures-any Q (call c p) h k = λ r. Ensures-any Q (p r) ((c, r) ∷ h) k

  -- What every call keeps is kept.
  pub Ensures-keeps :
      {A : Type 0} (Q : History C R → Type 0)
      (kept : (c : C) (r : R) (h : History C R) → Q h → Q ((c, r) ∷ h)) (p : Prog C R A)
      (h : History C R)
      → Q h
      → Ensures (λ a g. Q g) p h
  Ensures-keeps Q kept (ret a) h q = q
  Ensures-keeps Q kept (call c p) h q = λ r. Ensures-keeps Q kept (p r) ((c, r) ∷ h) (kept c r h q)

  -- Where the end of a program is all that matters.
  pub Ensures-last :
      {A B : Type 0} (Q : B → History C R → Type 0) (p : Prog C R A) (f : A → Prog C R B)
      (h : History C R)
      → ((a : A) (g : History C R) → Ensures Q (f a) g)
      → Ensures Q (bind p f) h
  Ensures-last Q p f h k =
      Ensures-bind (λ a g. Unit {0}) Q p f h (Ensures-any (λ a g. Unit {0}) p h (λ a g. tt))
        (λ a g u. k a g)

  -- Every call that a program may make.
  abbrev pub Makes : {A : Type 0} → (C → Type 0) → Prog C R A → Type 0
  Makes P (ret a) = Unit
  Makes P (call c k) = P c × ((r : R) → Makes P (k r))

  pub Makes-bind :
      {A B : Type 0} (P : C → Type 0) (p : Prog C R A) (f : A → Prog C R B)
      → Makes P p
      → ((a : A) → Makes P (f a))
      → Makes P (bind p f)
  Makes-bind P (ret a) f m k = k a
  Makes-bind P (call c p) f m k = (m.0, λ r. Makes-bind P (p r) f (m.1 r) k)

  -- What every call of a program keeps is kept.
  pub Makes-Ensures :
      {A : Type 0} (P : C → Type 0) (Q : History C R → Type 0)
      (kept : (c : C) (r : R) (h : History C R) → P c → Q h → Q ((c, r) ∷ h)) (p : Prog C R A)
      (h : History C R)
      → Makes P p
      → Q h
      → Ensures (λ a g. Q g) p h
  Makes-Ensures P Q kept (ret a) h m q = q
  Makes-Ensures P Q kept (call c k) h m q =
      λ r. Makes-Ensures P Q kept (k r) ((c, r) ∷ h) (m.1 r) (kept c r h m.0 q)

  -- Programs that run at the same time, from one history to another: each makes its calls in order.
  pub data Interleaves (sys : System C R)
      : List (Prog C R (Unit {0})) → History C R → History C R → Type 0 where
    finished : {h : History C R} → Interleaves sys [] h h
    ends :
        (before after : List (Prog C R (Unit {0}))) {h g : History C R}
        → Interleaves sys (before ++ after) h g
        → Interleaves sys (before ++ ret tt ∷ after) h g
    steps :
        (before after : List (Prog C R (Unit {0}))) (c : C) (k : R → Prog C R (Unit {0}))
        {h g : History C R}
        → Interleaves sys (before ++ k (sys h c) ∷ after) ((c, sys h c) ∷ h) g
        → Interleaves sys (before ++ call c k ∷ after) h g

  -- One after the other is one way.
  abbrev pub run_in_order : System C R → List (Prog C R (Unit {0})) → History C R → History C R
  run_in_order sys [] h = h
  run_in_order sys (p ∷ ps) h = run_in_order sys ps (run sys p h).1

  first_in_order :
      (sys : System C R) (p : Prog C R (Unit {0})) (ps : List (Prog C R (Unit {0})))
      (h g : History C R)
      → Interleaves sys ps (run sys p h).1 g
      → Interleaves sys (p ∷ ps) h g
  first_in_order sys (ret tt) ps h g i = ends [] ps i
  first_in_order sys (call c k) ps h g i =
      let r = sys h c in steps [] ps c k (first_in_order sys (k r) ps ((c, r) ∷ h) g i)

  pub run_in_order-Interleaves :
      (sys : System C R) (ps : List (Prog C R (Unit {0}))) (h : History C R)
      → Interleaves sys ps h (run_in_order sys ps h)
  run_in_order-Interleaves sys [] h = finished
  run_in_order-Interleaves sys (p ∷ ps) h =
      first_in_order sys p ps h (run_in_order sys (p ∷ ps) h)
        (run_in_order-Interleaves sys ps (run sys p h).1)

  All-middle :
      (Q : Prog C R (Unit {0}) → Type 0) (before after : List (Prog C R (Unit {0})))
      (p : Prog C R (Unit {0}))
      → All Q (before ++ p ∷ after)
      → Q p
        × ((q : Prog C R (Unit {0})) → Q q → All Q (before ++ q ∷ after))
        × All Q (before ++ after)
  All-middle Q [] after p a = (a.0, λ q m. (m, a.1), a.1)
  All-middle Q (b ∷ before) after p a =
      let m = All-middle Q before after p a.1 in (m.0, λ q n. (a.0, m.1 q n), (a.0, m.2))

  -- What every call of every program keeps is kept.
  pub Interleaves-keeps :
      (P : C → Type 0) (Q : History C R → Type 0) (sys : System C R)
      (kept : (c : C) (r : R) (h : History C R) → P c → Q h → Q ((c, r) ∷ h))
      {ps : List (Prog C R (Unit {0}))} {h g : History C R}
      → All (Makes P) ps
      → Q h
      → Interleaves sys ps h g
      → Q g
  Interleaves-keeps P Q sys kept m q finished = q
  Interleaves-keeps P Q sys kept m q (ends before after i) =
      Interleaves-keeps P Q sys kept (All-middle (Makes P) before after (ret tt) m).2 q i
  Interleaves-keeps P Q sys kept m q (steps before after c k {h} i) =
      let a = All-middle (Makes P) before after (call c k) m in
      Interleaves-keeps P Q sys kept (a.1 (k (sys h c)) (a.0.1 (sys h c)))
        (kept c (sys h c) h a.0.0 q) i
