-- ===== src/Dynsec/Task/Alike.antt =====
-- When two runs of the service's methods differ at most in the passwords that are sent.
use mqttctl.Prelude.{
  ◌≡◌, refl, sym, ap, Text, codes, ◌==◌, Bool, true, false, List, [], ◌∷◌, map, if◌then◌else◌,
}
use mqttctl.Dynsec.Task.{
  Service, Command, Failure, Result, ok, err, Task, pure, raise, attempt, ◌>>=◌, Env,
}

-- A command without the password that it carries.
abbrev pub without_password : Command → Command
without_password c =
    if c.command == codes "setClientPassword" then record c { args = without_second c.args } else c
  where
    without_second : List Text → List Text
    without_second (username ∷ password ∷ args) = username ∷ [] ∷ args
    without_second args = args

abbrev pub without_passwords : List Command → List Command
without_passwords = map without_password

-- The broker answers alike whatever the passwords are that it was and is sent.
pub record IgnoresPasswords (env : Env) : Type 0 where
  pub runs :
      (before before' : List Command) (c c' : Command)
      → without_passwords before ≡ without_passwords before'
      → without_password c ≡ without_password c'
      → env.run before c.command c.args ≡ env.run before' c'.command c'.args
  pub states :
      (before before' : List Command)
      → without_passwords before ≡ without_passwords before'
      → env.state before ≡ env.state before'

-- Two states of the service that differ at most in the passwords that were sent.
pub record IsAlike (w v : Service) : Type 0 where
  pub provisioned_at : w.provisioned_at ≡ v.provisioned_at
  pub error : w.error ≡ v.error
  pub status : w.status ≡ v.status
  pub settings : w.settings ≡ v.settings
  pub sent : without_passwords w.sent ≡ without_passwords v.sent
  pub logged : w.logged ≡ v.logged

-- From such states both do the same.
pub record Alike {A : Type 0} (m n : Task A) : Type 0 where
  pub after : (w v : Service) → IsAlike w v → ((m w).0 ≡ (n v).0) × IsAlike (m w).1 (n v).1

module _ {A : Type 0} where
  pub Alike-pure : (a : A) → Alike (pure a) (pure a)
  unfolding pure
  Alike-pure a = record { after = λ w v h. (refl, h) }

  pub Alike-raise : (e : Failure) → Alike (raise {A = A} e) (raise e)
  unfolding raise
  Alike-raise e = record { after = λ w v h. (refl, h) }

  pub Alike-attempt : (m n : Task A) → Alike m n → Alike (attempt m) (attempt n)
  unfolding attempt
  Alike-attempt m n k = record {
    after = λ w v h. let (same, alike) = k.after w v h in (ap ok same, alike);
  }

  pub Alike-if :
      (b : Bool) (m n m' n' : Task A)
      → Alike m m'
      → Alike n n'
      → Alike (if b then m else n) (if b then m' else n')
  Alike-if true m n m' n' k l = k
  Alike-if false m n m' n' k l = l

module _ {A B : Type 0} where
  Alike-continue :
      (r r' : Result A) (f g : A → Task B) (w v : Service)
      → r ≡ r'
      → ((a : A) → Alike (f a) (g a))
      → IsAlike w v
      → ((((λ w. (r, w)) >>= f) w).0 ≡ (((λ w. (r', w)) >>= g) v).0)
        × IsAlike (((λ w. (r, w)) >>= f) w).1 (((λ w. (r', w)) >>= g) v).1
  unfolding ◌>>=◌
  Alike-continue (ok a) r' f g w v e k h = rw (sym e) ((k a).after w v h)
  Alike-continue (err x) r' f g w v e k h = rw (sym e) (refl, h)

  pub Alike-bind :
      (m n : Task A) (f g : A → Task B)
      → Alike m n
      → ((a : A) → Alike (f a) (g a))
      → Alike (m >>= f) (n >>= g)
  unfolding ◌>>=◌
  Alike-bind m n f g k l = record {
    after = λ w v h.
        let (same, alike) = k.after w v h in
        Alike-continue (m w).0 (n v).0 f g (m w).1 (n v).1 same l alike;
  }

pub ruleset alike_rules = (Alike-pure, Alike-raise, Alike-attempt, Alike-if, Alike-bind)
