-- ===== src/Listing/Collect/Once.antt =====
-- No SIM is shown twice: the keys of the shown SIMs are distinct.
use app_suscriptions_back.Prelude.{
  ◌≡◌, refl, sym, ap, subst, ◌∙◌, ℕ, String, Bool, Option, false, ◌||◌, filter, List, [], ◌∷◌, ◌++◌,
  map, All, All-append, arith, Bool-cases, inl, inr, str_eq_iff,
}
use app_suscriptions_back.Errors.{Result, ok, err}
use app_suscriptions_back.Domain.{Subscription, Page, Adapter, SearchFilters}
use app_suscriptions_back.Filters.{apply_post_filters, post_filter_matches}
use app_suscriptions_back.Filters.Shortcut.{apply_post_filters-eq-filter}
use app_suscriptions_back.Listing.{Services, Query, response}
use app_suscriptions_back.Normalization.{Python}
use app_suscriptions_back.Normalization.Scalars.{SubscriptionOut}
use app_suscriptions_back.Normalization.Parts.{to_out}
use app_suscriptions_back.Listing.Collect.{ItemKey, key_eq, is_seen, Collected, add_sub, add_subs}

-- no key stands twice
abbrev pub IsOnce : List ItemKey → Type 0
IsOnce [] = Unit
IsOnce (key ∷ keys) = (is_seen key keys ≡ false) × IsOnce keys

key_eq_sym : (a b : ItemKey) → key_eq a b ≡ key_eq b a
unfolding key_eq
key_eq_sym [] [] = refl
key_eq_sym [] (y ∷ ys) = refl
key_eq_sym (x ∷ xs) [] = refl
key_eq_sym (x ∷ xs) (y ∷ ys) = ground (arith, key_eq_sym xs ys, str_eq_iff x y, str_eq_iff y x)

is_seen-append :
    (key last : ItemKey) (keys : List ItemKey)
    → is_seen key (keys ++ (last ∷ [])) ≡ (is_seen key keys || key_eq last key)
unfolding is_seen
is_seen-append key last [] = ground arith
is_seen-append key last (k ∷ keys) = ground (arith, is_seen-append key last keys)

IsOnce-append :
    (key : ItemKey) (keys : List ItemKey)
    → is_seen key keys ≡ false
    → IsOnce keys
    → IsOnce (keys ++ (key ∷ []))
unfolding is_seen
IsOnce-append key [] new once = (refl, tt)
IsOnce-append key (k ∷ keys) new (fresh, once) =
    ground (arith, IsOnce-append key keys, is_seen-append k key keys, key_eq_sym k key, once, fresh)

map-append_one :
    {A B : Type 0} (f : A → B) (xs : List A) (x : A)
    → map f (xs ++ (x ∷ [])) ≡ map f xs ++ (f x ∷ [])
map-append_one f [] x = refl
map-append_one f (y ∷ xs) x = ap (λ ys. f y ∷ ys) (map-append_one f xs x)

All-filter_sel :
    {A : Type 0} (P : A → Type 0) (sel : A → Bool) (xs : List A) → All P xs → All P (filter sel xs)
All-filter_sel P sel [] h = tt
All-filter_sel P sel (x ∷ xs) (h, hs) = elim (Bool-cases (sel x)) [
  | inl kept ↦ rw kept (h, All-filter_sel P sel xs hs)
  | inr dropped ↦ rw dropped (All-filter_sel P sel xs hs)
]

-- the SIMs of a provider
abbrev pub AllOf : String → List Subscription → Type 0
AllOf name = All (λ sub. sub.provider ≡ name)

-- An adapter whose SIMs all have the name of its provider.
abbrev pub NamesSims : {Creds : Type 0} → String → Adapter Creds → Type 0
NamesSims {Creds} name adapter =
    (creds : Creds) (cursor : Option String) (limit : ℕ) (filters : SearchFilters) (page : Page)
    → adapter.list_subscriptions creds cursor limit filters ≡ ok page
    → AllOf name page.0

-- every adapter of the registry does so
abbrev pub AllNameSims : {Creds : Type 0} → Services Creds → Type 0
AllNameSims {Creds} s =
    (name : String) (adapter : Adapter Creds)
    → s.registry name ≡ ok adapter
    → NamesSims name adapter

-- a call of such an adapter
abbrev pub IsNamed : {Creds : Type 0} → Query Creds → Type 0
IsNamed call = NamesSims call.name call.adapter

-- what the page of an answer has
abbrev pub AnswersOf : String → Result Page → Type 0
AnswersOf name (ok page) = AllOf name page.0
AnswersOf name (err e) = Unit

pub response-AnswersOf :
    {Creds : Type 0} (call : Query Creds) → IsNamed call → AnswersOf call.name (response call)
response-AnswersOf call named = go (response call) refl
  where
    go : (answer : Result Page) → response call ≡ answer → AnswersOf call.name answer
    go (ok page) e = named call.creds call.cursor call.limit call.filters page e
    go (err x) e = tt

pub apply_post_filters-AllOf :
    (python : Python) (filters : SearchFilters) (name : String) (subs : List Subscription)
    → AllOf name subs
    → AllOf name (apply_post_filters python filters subs)
apply_post_filters-AllOf python filters name subs h =
    rw (apply_post_filters-eq-filter python filters subs)
      (All-filter_sel (λ sub. sub.provider ≡ name) (post_filter_matches python filters) subs h)

module _ (python : Python) (key_of : String → Subscription → ItemKey) where
  -- the key of a shown SIM, with the provider that it shows
  abbrev pub own_key : SubscriptionOut → ItemKey
  own_key item = key_of item.subscription.provider item.subscription

  -- The shown SIMs have distinct keys.
  abbrev pub IsShownOnce : List SubscriptionOut → Type 0
  IsShownOnce items = IsOnce (map own_key items)

  abbrev pub CollectedOnce : Collected → Type 0
  CollectedOnce c = IsOnce c.seen × (c.seen ≡ map own_key c.items)

  pub collected-IsShownOnce : (c : Collected) → CollectedOnce c → IsShownOnce c.items
  collected-IsShownOnce c (once, keyed) = subst IsOnce keyed once

  add_sub-CollectedOnce :
      (name : String) (sub : Subscription) (c : Collected)
      → sub.provider ≡ name
      → CollectedOnce c
      → CollectedOnce (add_sub python name (key_of name sub) sub c)
  unfolding add_sub to_out
  add_sub-CollectedOnce name sub c own (once, keyed) =
      elim (Bool-cases (is_seen (key_of name sub) c.seen)) [
        | inl seen ↦ rw (add_sub, seen) (once, keyed)
        | inr new ↦
            rw (add_sub, new)
              (
                IsOnce-append (key_of name sub) c.seen new once,
                ap (λ ks. ks ++ (key_of name sub ∷ [])) keyed
                    ∙ ap (λ n. map own_key c.items ++ (key_of n sub ∷ [])) (sym own)
                    ∙ sym (map-append_one own_key c.items (to_out python sub)),
              )
      ]

  pub add_subs-CollectedOnce :
      (name : String) (subs : List Subscription) (c : Collected)
      → AllOf name subs
      → CollectedOnce c
      → CollectedOnce (add_subs python name (key_of name) subs c)
  unfolding add_subs
  add_subs-CollectedOnce name [] c own h = h
  add_subs-CollectedOnce name (sub ∷ subs) c (own, owns) h =
      add_subs-CollectedOnce name subs _ owns (add_sub-CollectedOnce name sub c own h)

module _ {κ} (P : SubscriptionOut → Type κ) (python : Python) (name : String) where
  add_sub-All :
      (key : ItemKey) (sub : Subscription) (c : Collected)
      → All P c.items
      → P (to_out python sub)
      → All P (add_sub python name key sub c).items
  unfolding add_sub
  add_sub-All key sub c h k = elim (Bool-cases (is_seen key c.seen)) [
    | inl seen ↦ rw (add_sub, seen) h
    | inr new ↦ rw (add_sub, new) (All-append P c.items _ h (k, tt))
  ]

  -- what holds of the shown SIMs and of those that are added holds of all
  pub add_subs-All :
      (key_of : Subscription → ItemKey) (subs : List Subscription) (c : Collected)
      → All P c.items
      → All P (map (to_out python) subs)
      → All P (add_subs python name key_of subs c).items
  unfolding add_subs
  add_subs-All key_of [] c h k = h
  add_subs-All key_of (sub ∷ subs) c h (k, ks) =
      add_subs-All key_of subs _ (add_sub-All (key_of sub) sub c h k) ks
