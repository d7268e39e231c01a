-- ===== src/Http/Json.antt =====
-- The answers of `handle_pps_get` in src/apps/httpmgr.cpp read back ms JSON.
use rp4_demo.Base.{
  ℕ, ◌≡◌, refl, sym, ap, ◌∙◌, arith, Bool, true, false, not, ◌&&◌, ◌||◌, Option, none, some, [],
  ◌∷◌, ◌++◌, append_assoc, append-nil, ◌==◌, ltb, if◌then◌else◌, Text, codes,
}
use rp4_demo.Http.{Attributes, members, handle_pps_get}

-- A byte that a JSON string holds as it is: not a control character, a quote or a backslash.
abbrev pub plain : ℕ → Bool
plain c = not (ltb c 32 || (c == 34 || c == 92))

abbrev pub all_plain : Text → Bool
all_plain [] = true
all_plain (c ∷ cs) = plain c && all_plain cs

abbrev pub PlainAttributes : Attributes → Type 0
PlainAttributes [] = Unit
PlainAttributes ((key, value) ∷ ms) =
    (all_plain key ≡ true) × (all_plain value ≡ true) × PlainAttributes ms

-- A reader of one object of strings, with the members read so far: before the brace, behind it, inside a
-- key, behind it, behind the colon, inside a value, behind it, behind a comma, behind the object.
pub data Reader : Type 0 where
  start first : Reader
  in_key : Attributes → Text → Reader
  colon quote : Attributes → Text → Reader
  in_value : Attributes → Text → Text → Reader
  after next finished : Attributes → Reader

-- A byte of a string that `close` ends and `more` continues.
string_step : ℕ → Reader → Reader → Option Reader
string_step c close more = if c == 34 then some close else if plain c then some more else none

abbrev expect : ℕ → ℕ → Reader → Option Reader
expect c wanted r = if c == wanted then some r else none

pub step : Reader → ℕ → Option Reader
step start c = expect c 123 first
step first c = if c == 125 then some (finished []) else expect c 34 (in_key [] [])
step (in_key ms k) c = string_step c (colon ms k) (in_key ms (k ++ c ∷ []))
step (colon ms k) c = expect c 58 (quote ms k)
step (quote ms k) c = expect c 34 (in_value ms k [])
step (in_value ms k v) c = string_step c (after (ms ++ (k, v) ∷ [])) (in_value ms k (v ++ c ∷ []))
step (after ms) c = if c == 125 then some (finished ms) else expect c 44 (next ms)
step (next ms) c = expect c 34 (in_key ms [])
step (finished ms) c = none

-- `none` is a text that was refused.
pub run : Option Reader → Text → Option Reader
unfolding step
run none t = none
run (some r) [] = some r
run (some r) (c ∷ cs) = run (step r c) cs

abbrev result : Option Reader → Option Attributes
result (some (finished ms)) = some ms
result _ = none

-- The members of a text that is an object of strings, whole.
pub read_json : Text → Option Attributes
unfolding run
read_json t = result (run (some start) t)

string_step-plain :
    (c : ℕ) (b : Bool) (close more : Reader)
    → plain c && b ≡ true
    → string_step c close more ≡ some more
unfolding string_step
string_step-plain c b close more h = grind arith

and_right : (a b : Bool) → a && b ≡ true → b ≡ true
and_right true b h = h
and_right false b h = grind arith

run_append : (o : Option Reader) (s t : Text) → run o (s ++ t) ≡ run (run o s) t
unfolding run
run_append none s t = refl
run_append (some r) [] t = refl
run_append (some r) (c ∷ s) t = run_append (step r c) s t

-- A piece whose run is known, and what follows it.
run_piece : (o p : Option Reader) (s t : Text) → run o s ≡ p → run o (s ++ t) ≡ run p t
run_piece o p s t h = run_append o s t ∙ ap (λ x. run x t) h

-- A plain text inside a key, and inside a value.
run-in_key :
    (ms : Attributes) (k s : Text)
    → all_plain s ≡ true
    → run (some (in_key ms k)) s ≡ some (in_key ms (k ++ s))
unfolding run step
run-in_key ms k [] h = ap (λ x. some (in_key ms x)) (sym (append-nil k))
run-in_key ms k (c ∷ s) h =
    ap (λ x. run x s) (string_step-plain c (all_plain s) (colon ms k) (in_key ms (k ++ c ∷ [])) h)
    ∙ run-in_key ms (k ++ c ∷ []) s (and_right (plain c) (all_plain s) h)
    ∙ ap (λ x. some (in_key ms x)) (append_assoc k (c ∷ []) s)

run-in_value :
    (ms : Attributes) (k v s : Text)
    → all_plain s ≡ true
    → run (some (in_value ms k v)) s ≡ some (in_value ms k (v ++ s))
unfolding run step
run-in_value ms k v [] h = ap (λ x. some (in_value ms k x)) (sym (append-nil v))
run-in_value ms k v (c ∷ s) h =
    ap (λ x. run x s)
      (string_step-plain c (all_plain s) (after (ms ++ (k, v) ∷ [])) (in_value ms k (v ++ c ∷ []))
        h)
    ∙ run-in_value ms k (v ++ c ∷ []) s (and_right (plain c) (all_plain s) h)
    ∙ ap (λ x. some (in_value ms k x)) (append_assoc v (c ∷ []) s)

-- A member, read by a reader that its first bytes bring inside a key, and what follows it.
run_member :
    (o : Option Reader) (ms : Attributes) (sep k v rest : Text)
    → run o (sep ++ 34 ∷ []) ≡ some (in_key ms [])
    → all_plain k ≡ true
    → all_plain v ≡ true
    → run o ((((sep ++ 34 ∷ k) ++ codes "\":") ++ 34 ∷ v) ++ 34 ∷ rest)
      ≡ run (some (after (ms ++ (k, v) ∷ []))) rest
unfolding run step string_step
run_member o ms sep k v rest h hk hv =
    let opened : run o (sep ++ 34 ∷ k) ≡ some (in_key ms k) =
      ap (λ x. run o x) (sym (append_assoc sep (34 ∷ []) k))
      ∙ run_piece o (some (in_key ms [])) (sep ++ 34 ∷ []) k h
      ∙ run-in_key ms [] k hk in
    let named : run o ((sep ++ 34 ∷ k) ++ codes "\":") ≡ some (quote ms k) =
      run_piece o (some (in_key ms k)) (sep ++ 34 ∷ k) (codes "\":") opened in
    let valued : run o (((sep ++ 34 ∷ k) ++ codes "\":") ++ 34 ∷ v) ≡ some (in_value ms k v) =
      run_piece o (some (quote ms k)) ((sep ++ 34 ∷ k) ++ codes "\":") (34 ∷ v) named
      ∙ run-in_value ms k [] v hv in
    run_piece o (some (in_value ms k v)) (((sep ++ 34 ∷ k) ++ codes "\":") ++ 34 ∷ v) (34 ∷ rest)
      valued

-- The members behind the first.
run-members :
    (ms attrs : Attributes)
    → PlainAttributes attrs
    → run (some (after ms)) (members false attrs) ≡ some (after (ms ++ attrs))
unfolding run step members
run-members ms [] h = ap (λ x. some (after x)) (sym (append-nil ms))
run-members ms ((k, v) ∷ attrs) h =
    run_member (some (after ms)) ms (44 ∷ []) k v (members false attrs) refl h.0 h.1
    ∙ run-members (ms ++ (k, v) ∷ []) attrs h.2
    ∙ ap (λ x. some (after x)) (append_assoc ms ((k, v) ∷ []) attrs)

-- The whole object.
run_object :
    (attrs : Attributes)
    → PlainAttributes attrs
    → run (some start) (123 ∷ members true attrs ++ codes "}") ≡ some (finished attrs)
unfolding run step members
run_object [] h = refl
run_object ((k, v) ∷ attrs) h =
    run_piece (some first) (some (after ((k, v) ∷ attrs))) (members true ((k, v) ∷ attrs))
      (codes "}")
      (run_member (some first) [] [] k v (members false attrs) refl h.0 h.1
        ∙ run-members ((k, v) ∷ []) attrs h.2)

-- The answer to a GET of an object that the kernel has, whose keys and values hold no control character,
-- quote or backslash: it reads back as JSON, as exactly the object's attributes, in order.
pub read_json-handle_pps_get :
    (read_object : Text → Option Attributes) (path : Text) (attrs : Attributes)
    → read_object path ≡ some attrs
    → PlainAttributes attrs
    → read_json (handle_pps_get (some read_object) path) ≡ some attrs
unfolding handle_pps_get read_json
read_json-handle_pps_get read_object path attrs found h = rw found (ap result (run_object attrs h))
