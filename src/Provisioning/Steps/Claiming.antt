-- ===== src/Provisioning/Steps/Claiming.antt =====
-- The requests that claim a slot, sent in their order up to the first that fails.
use comelit_man.Web.{Request, Device, post, get, connect_bridge, open_uaut, activate}
use comelit_man.Provisioning.{UserSlot, path}
use comelit_man.Prelude.{
  decimal, Text, ℕ, ◌≤◌, ◌≡◌, refl, sym, List, [], ◌∷◌, ◌++◌, append-nil, append_assoc, arith,
  length, take, Result, err, ok,
}
use comelit_man.Provisioning.Steps.{
  update_page, create_actcode_page, users_page, field_query, update_field, create_user,
  generate_activation_code,
}
use comelit_man.Web.Quote.{quote_bytes, quote}
use comelit_man.Texts.{utf8_char, utf8}
use comelit_man.Web.Outcomes.{
  Ends, ask-Ends, then_Ends, value-Ends, check-Ends, require-Ends, pure-Ends,
}

abbrev update : UserSlot → ℕ → Text → Request
update target field quoted = post (update_page ++ field_query target field quoted) []

abbrev quoted_or : Result Text → Text
quoted_or (ok quoted) = quoted
quoted_or (err e) = []

-- What is sent for a slot: the kind, the name and the enabled mark, then the code's request, and
-- the page it is read from.
abbrev pub claims : UserSlot → Text → List Request
claims target name =
    update target 5 (b'2' ∷ [])
    ∷ update target 6 (quoted_or (quote name))
    ∷ update target 4 (b'1' ∷ [])
    ∷ post (create_actcode_page ++ path target) []
    ∷ get users_page
    ∷ []

abbrev pub redeems : Text → Text → List Request
redeems code name = connect_bridge ∷ open_uaut ∷ activate code name ∷ []

-- The first requests of a list were sent behind others.
abbrev pub Partly : List Request → List Request → List Request → Type 0
Partly base steps sent = (n : ℕ) × (n ≤ length steps) × (sent ≡ base ++ take n steps)

pub one_more :
    (base front sent : List Request) (q : Request)
    → sent ≡ base ++ front
    → sent ++ q ∷ [] ≡ base ++ (front ++ q ∷ [])
one_more base front sent q e = rw e (append_assoc base front (q ∷ []))

update_field-Ends :
    {Q : List Request → Unit {0} → Type 0} {E : List Request → Type 0} (target : UserSlot)
    (field : ℕ) (value : Text) (d : Device) (sent : List Request)
    → E sent
    → ((quoted : Text)
        → quote value ≡ ok quoted
        → E (sent ++ update target field quoted ∷ [])
          × Q (sent ++ update target field quoted ∷ []) tt)
    → Ends Q E (update_field target field value d sent)
unfolding update_field
update_field-Ends target field value d sent unquoted h = value-Ends _ _ _ _ unquoted (λ quoted e.
    ask-Ends _ _ _ _ (h quoted e).0
      (λ a e'. require-Ends _ _ _ (h quoted e).0 (λ k. (h quoted e).1)))

pub create_user-Partly :
    (target : UserSlot) (name : Text) (d : Device) (base : List Request)
    → Ends
        (λ s u. s ≡ base ++ take 3 (claims target name))
        (Partly base (claims target name))
        (create_user target name d base)
unfolding create_user quote utf8 utf8_char quote_bytes decimal
create_user-Partly target name d base =
    then_Ends _ _ _ _
      (update_field-Ends {Q = λ s u. s ≡ base ++ take 1 (claims target name)} target 5 (decimal 2) d
        base (0, omega arith, sym (append-nil base))
        (λ q e. let same : q ≡ b'2' ∷ [] = cc in rw same ((1, omega arith, refl), refl)))
      (λ s u h.
        then_Ends _ _ _ _
          (update_field-Ends {Q = λ s u. s ≡ base ++ take 2 (claims target name)} target 6 name d s
            (1, omega arith, h)
            (λ q e.
              let sent : s ++ update target 6 (quoted_or (quote name)) ∷ []
                  ≡ base ++ take 2 (claims target name) =
                one_more _ _ _ (update target 6 (quoted_or (quote name))) h in
              let same : quoted_or (quote name) ≡ q = rw e refl in
              rw (← same) ((2, omega arith, sent), sent)))
          (λ s' u' h'.
            update_field-Ends target 4 (decimal 1) d s' (2, omega arith, h')
              (λ q e.
                let sent : s' ++ update target 4 (b'1' ∷ []) ∷ []
                    ≡ base ++ take 3 (claims target name) =
                  one_more _ _ _ (update target 4 (b'1' ∷ [])) h' in
                let same : q ≡ b'1' ∷ [] = cc in rw same ((3, omega arith, sent), sent))))

pub generate-Partly :
    (target : UserSlot) (name : Text) (d : Device) (base sent : List Request)
    → sent ≡ base ++ take 3 (claims target name)
    → Ends
        (λ s code. s ≡ base ++ claims target name)
        (Partly base (claims target name))
        (generate_activation_code target d sent)
unfolding generate_activation_code
generate-Partly target name d base sent h =
    let asked = one_more _ _ _ (post (create_actcode_page ++ path target) []) h in
    let listed : (sent ++ post (create_actcode_page ++ path target) [] ∷ []) ++ get users_page ∷ []
        ≡ base ++ claims target name =
      one_more _ _ _ (get users_page) asked in
    let part4 : Partly base (claims target name) (sent ++ _ ∷ []) = (4, omega arith, asked) in
    let part5 : Partly base (claims target name) ((sent ++ _ ∷ []) ++ _ ∷ []) =
      (5, omega arith, listed) in
    ask-Ends _ _ _ _ part4 (λ a e. check-Ends _ _ _ _ part4 (λ k. ask-Ends _ _ _ _ part5 (λ page e'.
      check-Ends _ _ _ _ part5 (λ k'.
        value-Ends _ _ _ _ part5
          (λ code found. check-Ends _ _ _ _ part5 (λ l. pure-Ends _ _ _ listed))))))
