-- ===== src/Provisioning/Steps/Order.antt =====
-- What provisioning sends, and in which order.
use comelit_man.Provisioning.{UserSlot}
use comelit_man.Prelude.{
  Text, ℕ, ◌≤◌, ◌≡◌, refl, List, [], ◌∷◌, ◌++◌, append_assoc, arith, take, All, Result,
}
use comelit_man.Provisioning.Steps.{ended, activation, redeem_activation_code, provision}
use comelit_man.Token.{Tools}
use comelit_man.Web.{Request, Device, connect_bridge, open_uaut, disconnect_bridge, activate}
use comelit_man.Web.Outcomes.{
  Ends, weaken, then_Ends, ask-Ends, asked-Ends, check-Ends, pure-Ends, returned, raised,
}
use comelit_man.Provisioning.Steps.Reading.{IsReading, Picked, pick_slot-Picked}
use comelit_man.Provisioning.Steps.Claiming.{
  claims, redeems, Partly, one_more, create_user-Partly, generate-Partly,
}

-- The connection is closed whatever comes of the activation.
ended-Ends :
    {A : Type 0} {Q : List Request → A → Type 0} {E F : List Request → Type 0}
    {p : List Request × Result A}
    → Ends Q F p
    → ((sent : List Request) → F sent → E (sent ++ disconnect_bridge ∷ []))
    → Ends
        (λ s a. (sent : List Request) × Q sent a × (s ≡ sent ++ disconnect_bridge ∷ []))
        E
        (ended p)
ended-Ends (returned h) raises = returned (_, h, refl)
ended-Ends (raised h) raises = raised (raises _ h)

activation-Partly :
    (code name : Text) (d : Device) (base : List Request)
    → Ends
        (λ s a. s ≡ base ++ redeems code name)
        (Partly base (redeems code name))
        (activation code name d base)
unfolding activation
activation-Partly code name d base =
    let opened : (base ++ connect_bridge ∷ []) ++ open_uaut ∷ []
        ≡ base ++ take 2 (redeems code name) =
      one_more _ _ _ open_uaut refl in
    let sent : ((base ++ connect_bridge ∷ []) ++ open_uaut ∷ []) ++ activate code name ∷ []
        ≡ base ++ redeems code name =
      one_more _ _ _ (activate code name) opened in
    ask-Ends _ _ _ _ (1, omega arith, refl)
      (λ a e.
        ask-Ends _ _ _ _ (2, omega arith, opened)
          (λ b e'. asked-Ends _ _ _ (3, omega arith, sent) (λ c. sent)))

-- Provisioning that raised: nothing was written, or a part of what claims the slot was sent, or the
-- slot was claimed and the connection to the bridge closed again.
pub data Failed (tools : Tools) (d : Device) (name : Text) : List Request → Type 0 where
  unpicked : {sent : List Request} → All IsReading sent → Failed tools d name sent
  unclaimed :
      {sent : List Request} {target : UserSlot} (n : ℕ)
      → Picked tools d sent target
      → n ≤ 5
      → Failed tools d name (sent ++ take n (claims target name))
  unredeemed :
      {sent : List Request} {target : UserSlot} (code : Text) (n : ℕ)
      → Picked tools d sent target
      → n ≤ 3
      → Failed tools d name
          (sent ++ (claims target name ++ (take n (redeems code name) ++ disconnect_bridge ∷ [])))

-- Provisioning that returned: everything was sent.
pub data Redeemed (tools : Tools) (d : Device) (name : Text) : List Request → Type 0 where
  redeemed :
      {sent : List Request} {target : UserSlot} (code : Text)
      → Picked tools d sent target
      → Redeemed tools d name
          (sent ++ (claims target name ++ (redeems code name ++ disconnect_bridge ∷ [])))

regroup :
    (base front more : List Request) (q : Request)
    → ((base ++ front) ++ more) ++ q ∷ [] ≡ base ++ (front ++ (more ++ q ∷ []))
regroup base front more q =
    rw (append_assoc (base ++ front) more (q ∷ []), append_assoc base front (more ++ q ∷ [])) refl

module _ (tools : Tools) (d : Device) (name : Text) (base : List Request) (target : UserSlot)
    (picked : Picked tools d base target) where
  Partly-Failed :
      (sent : List Request) → Partly base (claims target name) sent → Failed tools d name sent
  Partly-Failed sent (n, small, e) = rw e (unclaimed n picked small)

  closed-Failed :
      (code : Text) (sent : List Request)
      → Partly (base ++ claims target name) (redeems code name) sent
      → Failed tools d name (sent ++ disconnect_bridge ∷ [])
  closed-Failed code sent (n, small, e) =
      rw (e, regroup base (claims target name) (take n (redeems code name)) disconnect_bridge)
        (unredeemed code n picked small)

  redeem-Ends :
      (code : Text)
      → Ends
          (λ s token. Redeemed tools d name s)
          (Failed tools d name)
          (redeem_activation_code code name d (base ++ claims target name))
  unfolding redeem_activation_code
  redeem-Ends code =
      then_Ends _ _ _ _
        (ended-Ends (activation-Partly code name d (base ++ claims target name))
          (closed-Failed code))
        (λ s response (sent, e, e').
          let all_sent : s
              ≡ base ++ (claims target name ++ (redeems code name ++ disconnect_bridge ∷ [])) =
            rw (e', e) (regroup base (claims target name) (redeems code name) disconnect_bridge) in
          let failed : Failed tools d name s =
            rw all_sent (unredeemed code 3 picked (omega arith)) in
          check-Ends _ _ _ _ failed (λ k.
            check-Ends _ _ _ _ failed (λ l. pure-Ends _ _ _ (rw all_sent (redeemed code picked)))))

-- Every request of a provisioning run, whatever the device answers. A run that returns has
-- logged in and read, then claimed the first slot of the user table in the backup just
-- downloaded that is neither reserved nor taken (its kind, name and enabled mark, the request of
-- its code, the users page), then redeemed a code and closed the connection. A run that raises
-- has stopped while reading, or after at most the five requests that claim such a slot, or with
-- the connection closed after a part of the activation; so no other slot is ever written to.
pub provision-Ends :
    (tools : Tools) (password name : Text) (d : Device)
    → Ends
        (λ sent token. Redeemed tools d name sent)
        (Failed tools d name)
        (provision tools password name d [])
unfolding provision
provision-Ends tools password name d =
    then_Ends _ _ _ _ (weaken (λ s h. unpicked h) (pick_slot-Picked tools password d))
      (λ s target picked.
        let fails = Partly-Failed tools d name s target picked in
        then_Ends _ _ _ _ (weaken fails (create_user-Partly target name d s)) (λ s' u h.
          then_Ends _ _ _ _ (weaken fails (generate-Partly target name d s s' h))
            (λ s2 code e. rw e (redeem-Ends tools d name s target picked code))))
