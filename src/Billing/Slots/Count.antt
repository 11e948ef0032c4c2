-- ===== src/Billing/Slots/Count.antt =====
-- How many requests hold a slot of a key.
use cpa_plugin_key_billing_m.Prelude.{
  ℕ, suc, ◌+◌, ◌≡◌, refl, none, some, [], ◌∷◌, if◌then◌else◌, arith,
}
use cpa_plugin_key_billing_m.Prelude.Text.{Text, text_eq, text_eq_iff}
use cpa_plugin_key_billing_m.Prelude.Map.{Map, get, put, delete, IsUnique}

-- the requests of `m` that are held by `scope`
unfoldable pub count : Text → Map Text → ℕ
count scope [] = 0
count scope ((request, holder) ∷ m) =
    let rest = count scope m in if text_eq holder scope then suc rest else rest

abbrev pub one_if : Text → Text → ℕ
one_if holder scope = if text_eq holder scope then 1 else 0

pub count-put :
    (request holder scope : Text) (m : Map Text)
    → get request m ≡ none
    → count scope (put request holder m) ≡ count scope m + one_if holder scope
unfolding count get put
count-put request holder scope [] h = ground arith
count-put request holder scope ((r, x) ∷ m) h = ground (arith, count-put request holder scope m)

count-delete_absent :
    (request scope : Text) (m : Map Text)
    → get request m ≡ none
    → count scope (delete request m) ≡ count scope m
unfolding count get delete
count-delete_absent request scope [] h = refl
count-delete_absent request scope ((r, x) ∷ m) h =
    ground (arith, count-delete_absent request scope m)

pub count-delete :
    (request holder scope : Text) (m : Map Text)
    → IsUnique m
    → get request m ≡ some holder
    → count scope (delete request m) + one_if holder scope ≡ count scope m
unfolding count get delete
count-delete request holder scope [] u h = cc
count-delete request holder scope ((r, x) ∷ m) u h = ground (
  arith,
  text_eq_iff r request,
  count-delete request holder scope m,
  count-delete_absent request scope m,
)
