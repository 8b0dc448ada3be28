-- ===== src/Web/Outcomes.antt =====
-- What a program that sends requests may end in: rules to follow it step by step.
use comelit_man.Web.{Request, Reply, Device, Web, go_on, ◌>>=◌, pure, lift, ask, require}
use comelit_man.Prelude.{
  ◌≡◌, refl, Bool, true, false, List, [], ◌∷◌, ◌++◌, PyError, Result, err, ok,
}

-- `Q` holds of the requests sent and the value when it returns, and `E` of them when it raises.
pub data Ends {A : Type 0} (Q : List Request → A → Type 0) (E : List Request → Type 0)
    : List Request × Result A → Type 0 where
  returned : {sent : List Request} {a : A} → Q sent a → Ends Q E (sent, ok a)
  raised : {sent : List Request} {e : PyError} → E sent → Ends Q E (sent, err e)

-- A weaker statement of the runs that raise.
pub weaken :
    {A : Type 0} {Q : List Request → A → Type 0} {E F : List Request → Type 0}
    {p : List Request × Result A}
    → ((sent : List Request) → E sent → F sent)
    → Ends Q E p
    → Ends Q F p
weaken f (returned h) = returned h
weaken f (raised h) = raised (f _ h)

module _ {E : List Request → Type 0} where
  continued :
      {A B : Type 0} {Q : List Request → A → Type 0} {R : List Request → B → Type 0} (f : A → Web B)
      (d : Device) {p : List Request × Result A}
      → Ends Q E p
      → ((sent : List Request) (a : A) → Q sent a → Ends R E (f a d sent))
      → Ends R E (go_on f d p)
  continued f d (returned h) next = next _ _ h
  continued f d (raised h) next = raised h

  replied :
      {B : Type 0} {R : List Request → B → Type 0} (r : Result Reply) (f : Reply → Web B)
      (d : Device) (sent : List Request)
      → E sent
      → ((a : Reply) → r ≡ ok a → Ends R E (f a d sent))
      → Ends R E (go_on f d (sent, r))
  replied (ok a) f d sent raises next = next a refl
  replied (err e) f d sent raises next = raised raises

  replied_last :
      {Q : List Request → Reply → Type 0} (r : Result Reply) (sent : List Request)
      → E sent
      → ((a : Reply) → Q sent a)
      → Ends Q E (sent, r)
  replied_last (ok a) sent raises next = returned (next a)
  replied_last (err e) sent raises next = raised raises

  -- The two parts in their order.
  pub then_Ends :
      {A B : Type 0} {Q : List Request → A → Type 0} {R : List Request → B → Type 0} (m : Web A)
      (f : A → Web B) (d : Device) (sent : List Request)
      → Ends Q E (m d sent)
      → ((sent' : List Request) (a : A) → Q sent' a → Ends R E (f a d sent'))
      → Ends R E ((m >>= f) d sent)
  unfolding ◌>>=◌
  then_Ends m f d sent h next = continued f d h next

  -- A request, and what its reply is used for.
  pub ask-Ends :
      {B : Type 0} {R : List Request → B → Type 0} (q : Request) (f : Reply → Web B) (d : Device)
      (sent : List Request)
      → E (sent ++ q ∷ [])
      → ((a : Reply) → d (sent ++ q ∷ []) ≡ ok a → Ends R E (f a d (sent ++ q ∷ [])))
      → Ends R E ((ask q >>= f) d sent)
  unfolding ask ◌>>=◌
  ask-Ends q f d sent raises next = replied (d (sent ++ q ∷ [])) f d (sent ++ q ∷ []) raises next

  -- The last request of a program.
  pub asked-Ends :
      {Q : List Request → Reply → Type 0} (q : Request) (d : Device) (sent : List Request)
      → E (sent ++ q ∷ [])
      → ((a : Reply) → Q (sent ++ q ∷ []) a)
      → Ends Q E (ask q d sent)
  unfolding ask
  asked-Ends q d sent raises next = replied_last (d (sent ++ q ∷ [])) (sent ++ q ∷ []) raises next

  -- A check, whose failure ends the program, and what follows it.
  pub check-Ends :
      {B : Type 0} {R : List Request → B → Type 0} (b : Bool) (f : Unit {0} → Web B) (d : Device)
      (sent : List Request)
      → E sent
      → (b ≡ true → Ends R E (f tt d sent))
      → Ends R E ((require b >>= f) d sent)
  unfolding require ◌>>=◌
  check-Ends true f d sent raises next = next refl
  check-Ends false f d sent raises next = raised raises

  -- A value that may be missing, and what it is used for.
  pub value-Ends :
      {A B : Type 0} {R : List Request → B → Type 0} (r : Result A) (f : A → Web B) (d : Device)
      (sent : List Request)
      → E sent
      → ((a : A) → r ≡ ok a → Ends R E (f a d sent))
      → Ends R E ((lift r >>= f) d sent)
  unfolding lift ◌>>=◌
  value-Ends (ok a) f d sent raises next = next a refl
  value-Ends (err e) f d sent raises next = raised raises

  -- The last check of a program.
  pub require-Ends :
      {Q : List Request → Unit {0} → Type 0} (b : Bool) (d : Device) (sent : List Request)
      → E sent
      → (b ≡ true → Q sent tt)
      → Ends Q E (require b d sent)
  unfolding require
  require-Ends true d sent raises next = returned (next refl)
  require-Ends false d sent raises next = raised raises

  pub lift-Ends :
      {A : Type 0} {Q : List Request → A → Type 0} (r : Result A) (d : Device) (sent : List Request)
      → E sent
      → ((a : A) → r ≡ ok a → Q sent a)
      → Ends Q E (lift r d sent)
  unfolding lift
  lift-Ends (ok a) d sent raises next = returned (next a refl)
  lift-Ends (err e) d sent raises next = raised raises

  pub pure-Ends :
      {A : Type 0} {Q : List Request → A → Type 0} (a : A) (d : Device) (sent : List Request)
      → Q sent a
      → Ends Q E (pure a d sent)
  unfolding pure
  pure-Ends a d sent h = returned h
