-- ===== src/Experiment/Ensures.antt =====
-- Assertions on the calls that an action of the experiment node has made.
use mathlib.Core.Path.{subst}
use robot_core.Prelude.{◌≡◌, sym, Bool, true, false, List, if◌then◌else◌}
use robot_core.Experiment.{Call, Run, Outcome, done, raised, running, Action, continue, ◌>>=◌}

-- The assertions: on the calls before the action, on its value and the calls when it returns, and on
-- the calls when it does not.
abbrev pub Before : Type 0 → Type 1
Before F = List (Call F) → Type 0

abbrev pub Returns : Type 0 → Type 0 → Type 1
Returns F A = A → List (Call F) → Type 0

abbrev pub Holds : {F A : Type 0} → Returns F A → Before F → Outcome A × Run F → Type 0
Holds Q E (done a, r) = Q a r.trace
Holds Q E (raised, r) = E r.trace
Holds Q E (running, r) = E r.trace

pub record Ensures {F A : Type 0} (P : Before F) (Q : Returns F A) (E : Before F) (m : Action F A)
    : Type 0 where
  pub at : (r : Run F) → P r.trace → Holds Q E (m r)

-- The action leaves an assertion as it is.
abbrev pub Keeps : {F A : Type 0} → Before F → Before F → Action F A → Type 0
Keeps P E m = Ensures P (λ _. P) E m

module _ {F A : Type 0} (P : Before F) (Q : Returns F A) (E : Before F) where
  pub Ensures-if :
      (b : Bool) (m n : Action F A)
      → Ensures P Q E m
      → Ensures P Q E n
      → Ensures P Q E (if b then m else n)
  Ensures-if true m n hm hn = hm
  Ensures-if false m n hm hn = hn

module _ {F A B : Type 0} (P : Before F) (R : Returns F A) (Q : Returns F B) (E : Before F) where
  pub Ensures-bind :
      (m : Action F A) (f : A → Action F B)
      → Ensures P R E m
      → ((a : A) → Ensures (R a) Q E (f a))
      → Ensures P Q E (m >>= f)
  unfolding ◌>>=◌
  Ensures-bind m f hm hf = record { at = λ r k. go (m r) (hm.at r k) }
    where
      go : (x : Outcome A × Run F) → Holds R E x → Holds Q E (let (o, r) = x in continue o r f)
      go (done a, r) k = (hf a).at r k
      go (raised, r) k = k
      go (running, r) k = k

module _ {F A B : Type 0} (P : Before F) (Q : Returns F B) (E : Before F) where
  -- A first action that leaves the assertion as it is.
  pub Keeps-bind :
      (m : Action F A) (f : A → Action F B)
      → Keeps P E m
      → ((a : A) → Ensures P Q E (f a))
      → Ensures P Q E (m >>= f)
  Keeps-bind = Ensures-bind P (λ _. P) Q E

module _ {F A : Type 0} (P : Before F) (R Q : Returns F A) (E : Before F) where
  pub Ensures-weaken :
      (m : Action F A)
      → ((a : A) (calls : List (Call F)) → R a calls → Q a calls)
      → Ensures P R E m
      → Ensures P Q E m
  Ensures-weaken m weaker h = record { at = λ r k. go (m r) (h.at r k) }
    where
      go : (x : Outcome A × Run F) → Holds R E x → Holds Q E x
      go (done a, r) k = weaker a r.trace k
      go (raised, r) k = k
      go (running, r) k = k

module _ {F A : Type 0} (P : Before F) (Q : Returns F A) (E : Before F) where
  -- An action that calls nothing.
  pub Ensures-unchanged :
      (m : Action F A)
      → ((r : Run F) → (m r).1.trace ≡ r.trace)
      → ((a : A) (calls : List (Call F)) → P calls → Q a calls)
      → ((calls : List (Call F)) → P calls → E calls)
      → Ensures P Q E m
  Ensures-unchanged m same returns other = record { at = λ r k. go r.trace (m r) (same r) k }
    where
      go :
          (calls : List (Call F)) (x : Outcome A × Run F)
          → x.1.trace ≡ calls
          → P calls
          → Holds Q E x
      go calls (done a, r) e k = subst (Q a) (sym e) (returns a calls k)
      go calls (raised, r) e k = subst E (sym e) (other calls k)
      go calls (running, r) e k = subst E (sym e) (other calls k)
