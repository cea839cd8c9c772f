-- ===== src/Dynsec/Task/Keeps.antt =====
-- What the service's methods preserve, method by method, from what a command and a change of the
-- service's own fields preserve.
use mqttctl.Prelude.{ℕ, Text, Bool, true, false, Option, List, if◌then◌else◌}
use mqttctl.Dynsec.Task.{
  Failure, Service, Result, ok, err, Task, pure, raise, attempt, gets, modify, ◌>>=◌, Env,
  run_dynsec_command,
}

-- Whether it returns or throws, `m` takes a state with `P` to one with `P`.
pub record Keeps {A : Type 0} (P : Service → Type 0) (m : Task A) : Type 0 where
  pub after : (w : Service) → P w → P (m w).1

module _ {P : Service → Type 0} where
  pub Keeps-modify : (f : Service → Service) → ((w : Service) → P w → P (f w)) → Keeps P (modify f)
  unfolding modify
  Keeps-modify f k = record { after = k }

module _ {P : Service → Type 0} {A : Type 0} where
  pub Keeps-pure : (a : A) → Keeps P (pure a)
  unfolding pure
  Keeps-pure a = record { after = λ w h. h }

  pub Keeps-raise : (e : Failure) → Keeps P (raise {A = A} e)
  unfolding raise
  Keeps-raise e = record { after = λ w h. h }

  pub Keeps-gets : (f : Service → A) → Keeps P (gets f)
  unfolding gets
  Keeps-gets f = record { after = λ w h. h }

  pub Keeps-attempt : (m : Task A) → Keeps P m → Keeps P (attempt m)
  unfolding attempt
  Keeps-attempt m k = record { after = k.after }

  pub Keeps-if : (b : Bool) (m n : Task A) → Keeps P m → Keeps P n → Keeps P (if b then m else n)
  Keeps-if true m n k l = k
  Keeps-if false m n k l = l

module _ {P : Service → Type 0} {A B : Type 0} where
  Keeps-continue :
      (r : Result A) (f : A → Task B) → ((a : A) → Keeps P (f a)) → Keeps P ((λ w. (r, w)) >>= f)
  unfolding ◌>>=◌
  Keeps-continue (ok a) f k = record { after = (k a).after }
  Keeps-continue (err e) f k = record { after = λ w h. h }

  pub Keeps-bind :
      (m : Task A) (f : A → Task B) → Keeps P m → ((a : A) → Keeps P (f a)) → Keeps P (m >>= f)
  unfolding ◌>>=◌
  Keeps-bind m f k l = record {
    after = λ w h. let (r, w') = m w in (Keeps-continue r f l).after w' (k.after w h);
  }

pub ruleset task_rules = (Keeps-pure, Keeps-raise, Keeps-gets, Keeps-attempt, Keeps-if, Keeps-bind)

-- `P` holds on when a command is sent to the broker and when the time of the bootstrap is set.
pub record IsStable (env : Env) (P : Service → Type 0) : Type 0 where
  pub at_run :
      (command : Text) (args : List Text) (w : Service)
      → P w
      → P (run_dynsec_command env command args w).1
  pub at_provisioned : (t : Option ℕ) (w : Service) → P w → P (record w { provisioned_at = t })
