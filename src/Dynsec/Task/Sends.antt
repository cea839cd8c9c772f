-- ===== src/Dynsec/Task/Sends.antt =====
-- Which commands the methods of `DynsecService` send to the broker where they return.
use mathlib.Core.List.{append_assoc, append-nil}
use mqttctl.Prelude.{
  ◌≡◌, ◌∙◌, refl, sym, ap, subst, Text, Bool, true, false, List, [], ◌∷◌, ◌++◌, if◌then◌else◌,
}
use mqttctl.Dynsec.Task.{
  Service, Command, Result, ok, err, Task, pure, ◌>>=◌, Env, run_dynsec_command,
}

-- Where `m` returns, it has sent these commands, in this order.
pub record Sends {A : Type 0} (m : Task A) (commands : List Command) : Type 0 where
  pub sent : (w : Service) (a : A) → (m w).0 ≡ ok a → (m w).1.sent ≡ w.sent ++ commands

module _ {A : Type 0} where
  -- A task that changes nothing of what was sent.
  pub Sends-nothing : (m : Task A) → ((w : Service) → (m w).1.sent ≡ w.sent) → Sends m []
  Sends-nothing m same = record { sent = λ w a e. same w ∙ sym (append-nil w.sent) }

  pub Sends-pure : (a : A) → Sends (pure a) []
  unfolding pure
  Sends-pure a = Sends-nothing _ (λ w. refl)

  pub Sends-if :
      (b : Bool) (m n : Task A) (cs ds : List Command)
      → Sends m cs
      → Sends n ds
      → Sends (if b then m else n) (if b then cs else ds)
  Sends-if true m n cs ds s t = s
  Sends-if false m n cs ds s t = t

module _ {A B : Type 0} where
  Sends-continue :
      (r : Result A) (f : A → Task B) (cs : List Command)
      → ((a : A) → r ≡ ok a → Sends (f a) cs)
      → Sends ((λ w. (r, w)) >>= f) cs
  unfolding ◌>>=◌
  Sends-continue (ok a) f cs s = record { sent = (s a refl).sent }
  Sends-continue (err e) f cs s = record { sent = λ w a h. cc }

  returned :
      (r : Result A) (f : A → Task B) (w : Service) (b : B)
      → (((λ w. (r, w)) >>= f) w).0 ≡ ok b
      → (a : A) × (r ≡ ok a)
  unfolding ◌>>=◌
  returned (ok a) f w b h = (a, refl)
  returned (err e) f w b h = cc

  pub Sends-bind :
      (m : Task A) (f : A → Task B) (cs ds : List Command)
      → Sends m cs
      → ((a : A) → Sends (f a) ds)
      → Sends (m >>= f) (cs ++ ds)
  unfolding ◌>>=◌
  Sends-bind m f cs ds s t = record {
    sent = λ w b h.
        let (a, e) = returned (m w).0 f (m w).1 b h in
        (Sends-continue (m w).0 f ds (λ a _. t a)).sent (m w).1 b h
        ∙ ap (λ before. before ++ ds) (s.sent w a e)
        ∙ append_assoc w.sent cs ds;
  }

module _ {A B : Type 0} where
  pub Sends-pure_last :
      (m : Task A) (b : B) (cs : List Command) → Sends m cs → Sends (m >>= λ _. pure b) cs
  Sends-pure_last m b cs s =
      subst (Sends (m >>= λ _. pure b)) (append-nil cs) (Sends-bind m _ cs [] s (λ _. Sends-pure b))

module _ (env : Env) where
  pub Sends-run :
      (command : Text) (args : List Text)
      → Sends
          (run_dynsec_command env command args)
          ((record { command = command; args = args }) ∷ [])
  unfolding run_dynsec_command
  Sends-run command args = record { sent = λ w a e. refl }
