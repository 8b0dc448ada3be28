-- ===== src/Token/Laws.antt =====
-- What a search for a token returns.
use comelit_man.Prelude.{
  Text, ℕ, ◌≡◌, refl, sym, ap, ◌∙◌, inl, inr, Bool, true, false, ◌&&◌, Option, none, some, List, [],
  ◌∷◌, ◌++◌, arith, ==_iff, Option-cases, if_under, length, take, drop, All, take-append-drop,
  Result, ◌>>=◌, err, ok,
}
use comelit_man.Token.{
  users_cfg, token_front, null_token, Tools, base_name, read_raw, read_member, or_later, picked,
  pick_member, pick_in, all_hex, token_at, tokens, first_token, token_in, parse_token,
}
use comelit_man.Texts.{starts_with}
use comelit_man.Bytes.{Bytes, same_bytes}
use mathlib.Core.Path.{subst}

-- The text holds the token between the pattern's quotes.
pub record Holds (text token : Text) : Type 0 where
  pub front : Text
  pub back : Text
  pub quoted : text ≡ front ++ (token_front ++ (token ++ b'"' ∷ back))
  pub hexadecimal : all_hex token ≡ true
  pub has_length : length token ≡ 32

starts_with-eq :
    (needle t : Text) → starts_with needle t ≡ true → t ≡ needle ++ drop (length needle) t
starts_with-eq [] t h = refl
starts_with-eq (c ∷ needle) [] h = cc
starts_with-eq (c ∷ needle) (d ∷ t) h =
    let rest : t ≡ needle ++ drop (length needle) t = starts_with-eq needle t (ground arith) in
    let same : c ≡ d = ground arith in rw same (ap (◌∷◌ d) rest)

abbrev HoldsIf : Text → Option Text → Type 0
HoldsIf t none = Unit
HoldsIf t (some token) = Holds t token

both : (a b : Bool) → (a && b) ≡ true → (a ≡ true) × (b ≡ true)
both true b h = (refl, h)
both false b h = cc

token_at-Holds : (t : Text) → HoldsIf t (token_at t)
unfolding token_at
token_at-Holds t =
    let rest = drop 5 t in
    if_under (HoldsIf t) _ (some (take 32 rest)) none
      (λ found.
        let (front, more) = both _ _ found in
        let (hexadecimal, last) = both _ _ more in
        let (quote, long) = both _ _ last in
        let closed : drop 32 rest ≡ b'"' ∷ drop 1 (drop 32 rest) =
          starts_with-eq (b'"' ∷ []) (drop 32 rest) quote in
        let split : take 32 rest ++ b'"' ∷ drop 1 (drop 32 rest) ≡ rest =
          ap (λ u. take 32 rest ++ u) (sym closed) ∙ take-append-drop 32 rest in
        record {
          front = [];
          back = drop 1 (drop 32 rest);
          quoted = starts_with-eq token_front t front ∙ ap (λ u. token_front ++ u) (sym split);
          hexadecimal = hexadecimal;
          has_length = (==_iff _ _).0 long;
        })
      (λ nothing. tt)

-- A member of the archive.
pub data In (m : Text × Option Bytes) : List (Text × Option Bytes) → Type 0 where
  here : {ms : List (Text × Option Bytes)} → In m (m ∷ ms)
  there : {n : Text × Option Bytes} {ms : List (Text × Option Bytes)} → In m ms → In m (n ∷ ms)

Holds-later : (c : ℕ) (t token : Text) → Holds t token → Holds (c ∷ t) token
Holds-later c t token h = record {
  front = c ∷ h.front;
  back = h.back;
  quoted = ap (◌∷◌ c) h.quoted;
  hexadecimal = h.hexadecimal;
  has_length = h.has_length;
}

All-later : (c : ℕ) (t : Text) (ts : List Text) → All (Holds t) ts → All (Holds (c ∷ t)) ts
All-later c t [] h = tt
All-later c t (x ∷ ts) h = (Holds-later c t x h.0, All-later c t ts h.1)

tokens-Holds : (t : Text) → All (Holds t) (tokens t)
unfolding tokens
tokens-Holds [] = tt
tokens-Holds (c ∷ t) =
    let later = All-later c t (tokens t) (tokens-Holds t) in
    elim (Option-cases (token_at (c ∷ t))) [
      | inl e ↦ rw (e, tokens) later
      | inr (token, e) ↦ rw (e, tokens) (subst (HoldsIf (c ∷ t)) e (token_at-Holds (c ∷ t)), later)
    ]

-- A token that is found, and is not all zeros.
abbrev Found : Text → Option Text → Type 0
Found t none = Unit
Found t (some token) = Holds t token × (same_bytes token null_token ≡ false)

first_token-Found : (t : Text) (ts : List Text) → All (Holds t) ts → Found t (first_token ts)
unfolding first_token
first_token-Found t [] h = tt
first_token-Found t (token ∷ ts) h =
    if_under (Found t) (same_bytes token null_token) (first_token ts) (some token)
      (λ zeros. first_token-Found t ts h.1) (λ other. (h.0, other))

token_in-Found : (t : Text) → Found t (token_in t)
unfolding token_in
token_in-Found t = first_token-Found t (tokens t) (tokens-Holds t)

-- The token was read from a member of the archive whose name is `users.cfg`.
pub record Stored (tools : Tools) (ms : List (Text × Option Bytes)) (token : Text) : Type 0 where
  pub name : Text
  pub raw : Bytes
  pub member : In (name, some raw) ms
  pub named : same_bytes (base_name name) users_cfg ≡ true
  pub text : Text
  pub read : read_raw tools raw ≡ ok text
  pub holds : Holds text token
  pub not_null : same_bytes token null_token ≡ false

abbrev StoredIf : Tools → List (Text × Option Bytes) → Result Text → Type 0
StoredIf tools ms (err e) = Unit
StoredIf tools ms (ok token) = Stored tools ms token

Stored-later :
    (tools : Tools) (m : Text × Option Bytes) (ms : List (Text × Option Bytes)) (r : Result Text)
    → StoredIf tools ms r
    → StoredIf tools (m ∷ ms) r
Stored-later tools m ms (err e) h = tt
Stored-later tools m ms (ok token) h = record {
  name = h.name;
  raw = h.raw;
  member = there h.member;
  named = h.named;
  text = h.text;
  read = h.read;
  holds = h.holds;
  not_null = h.not_null;
}

-- The member at the front, whose text is read.
picked-Stored :
    (tools : Tools) (name : Text) (raw : Bytes) (ms : List (Text × Option Bytes))
    (later : Result Text)
    → same_bytes (base_name name) users_cfg ≡ true
    → StoredIf tools ((name, some raw) ∷ ms) later
    → (r : Result Text) → read_raw tools raw ≡ r
    → StoredIf tools
        ((name, some raw) ∷ ms)
        ((r >>= λ text. ok (some text)) >>= picked token_in later)
picked-Stored tools name raw ms later named h (err e) read = tt
picked-Stored tools name raw ms later named h (ok text) read =
    searched (token_in text) (token_in-Found text)
  where
    searched :
        (o : Option Text) → Found text o → StoredIf tools ((name, some raw) ∷ ms) (or_later later o)
    searched none found = h
    searched (some token) found = record {
      name = name;
      raw = raw;
      member = here;
      named = named;
      text = text;
      read = read;
      holds = found.0;
      not_null = found.1;
    }

pick_member-Stored :
    (tools : Tools) (ms : List (Text × Option Bytes))
    → StoredIf tools ms (pick_member tools token_in ms)
unfolding pick_member read_member
pick_member-Stored tools [] = tt
pick_member-Stored tools ((name, none) ∷ ms) =
    Stored-later tools (name, none) ms _ (pick_member-Stored tools ms)
pick_member-Stored tools ((name, some raw) ∷ ms) =
    let later = pick_member tools token_in ms in
    let h = Stored-later tools (name, some raw) ms later (pick_member-Stored tools ms) in
    if_under
      (λ (r : Result (Option Text)).
        StoredIf tools ((name, some raw) ∷ ms) (r >>= picked token_in later))
      (same_bytes (base_name name) users_cfg) _ _
      (λ named. picked-Stored tools name raw ms later named h (read_raw tools raw) refl)
      (λ other. h)

-- A token that the search returns is 32 hexadecimal digits, not all zeros, and stands between the
-- pattern's quotes in the text of a member of the archive that is named `users.cfg` exactly,
-- unzipped where it is zipped; so a file whose name only ends so is never read for it.
pub parse_token-Stored :
    (tools : Tools) (archive : Bytes) (ms : List (Text × Option Bytes)) (token : Text)
    → tools.members archive ≡ some ms
    → parse_token tools archive ≡ ok token
    → Stored tools ms token
unfolding parse_token pick_in
parse_token-Stored tools archive ms token opened found =
    let picked_token : pick_member tools token_in ms ≡ ok token =
      ap (pick_in tools token_in) (sym opened) ∙ found in
    subst (StoredIf tools ms) picked_token (pick_member-Stored tools ms)
