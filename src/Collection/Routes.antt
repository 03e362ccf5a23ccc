-- ===== src/Collection/Routes.antt =====
-- The routes of the collection services: no two of them claim the same pattern.
use kiri_gcp.Prelude.{
  ℕ, ◌≡◌, refl, sym, ap, ◌∙◌, ◌≢◌, inl, inr, true, false, [], ◌∷◌, ◌++◌, arith, Elem,
}
use kiri_gcp.Text.{Text, str, has_byte}
use kiri_gcp.Text.Laws.{append_cancel_left, append_sep_injective}
use kiri_gcp.Service.{Handler, Route}
use kiri_gcp.Collection.{State, list_items, create_item, get_item, delete_item, routes}
use kiri_gcp.Server.Router.{route_key}

-- A name that is one path segment.
abbrev pub IsSegment : Text → Type 0
IsSegment n = has_byte b'/' n ≡ false

data Slot : Type 0 where
  list_slot create_slot get_slot delete_slot : Slot

abbrev base : Text → Text
base n = str "/v1/projects/{project}/locations/{location}/" ++ n

abbrev slot_route : Text → Slot → Route (Handler State)
slot_route n list_slot = record { method = str "GET"; pattern = base n; handler = list_items n }
slot_route n create_slot = record { method = str "POST"; pattern = base n; handler = create_item n }
slot_route n get_slot = record {
  method = str "GET";
  pattern = base n ++ str "/{id}";
  handler = get_item n;
}
slot_route n delete_slot = record {
  method = str "DELETE";
  pattern = base n ++ str "/{id}";
  handler = delete_item n;
}

slot_of :
    (n : Text) (rt : Route (Handler State))
    → Elem rt (routes n)
    → (a : Slot) × (rt ≡ slot_route n a)
unfolding routes
slot_of n rt (inl e) = (list_slot, e)
slot_of n rt (inr (inl e)) = (create_slot, e)
slot_of n rt (inr (inr (inl e))) = (get_slot, e)
slot_of n rt (inr (inr (inr (inl e)))) = (delete_slot, e)
slot_of n rt (inr (inr (inr (inr e)))) = absurd e

has_byte-append_sep : (b : ℕ) (s t : Text) → has_byte b (s ++ b ∷ t) ≡ true
unfolding has_byte
has_byte-append_sep b [] t = ground arith
has_byte-append_sep b (c ∷ s) t = ground (arith, has_byte-append_sep b s t)

not_below : (n m t : Text) → IsSegment n → n ≢ m ++ b'/' ∷ t
not_below n m t h e = cc (h, e, has_byte-append_sep b'/' m t)

key-injective :
    (n m : Text) (a b : Slot)
    → IsSegment n
    → IsSegment m
    → route_key (slot_route n a) ≡ route_key (slot_route m b)
    → (n ≡ m) × (a ≡ b)
unfolding route_key str
key-injective n m list_slot list_slot h k e =
    (append_cancel_left (str "GET /v1/projects/{project}/locations/{location}/") n m e, refl)
key-injective n m list_slot create_slot h k e = ground arith
key-injective n m list_slot get_slot h k e = absurd (
    not_below n m (str "{id}") h
      (append_cancel_left (str "GET /v1/projects/{project}/locations/{location}/") n _ e))
key-injective n m list_slot delete_slot h k e = ground arith
key-injective n m create_slot list_slot h k e = ground arith
key-injective n m create_slot create_slot h k e =
    (append_cancel_left (str "POST /v1/projects/{project}/locations/{location}/") n m e, refl)
key-injective n m create_slot get_slot h k e = ground arith
key-injective n m create_slot delete_slot h k e = ground arith
key-injective n m get_slot list_slot h k e = absurd (
    not_below m n (str "{id}") k
      (sym (append_cancel_left (str "GET /v1/projects/{project}/locations/{location}/") _ m e)))
key-injective n m get_slot create_slot h k e = ground arith
key-injective n m get_slot get_slot h k e = (
  (append_sep_injective b'/' n m (str "{id}") (str "{id}") h k
      (append_cancel_left (str "GET /v1/projects/{project}/locations/{location}/") _ _ e)).0,
  refl,
)
key-injective n m get_slot delete_slot h k e = ground arith
key-injective n m delete_slot list_slot h k e = ground arith
key-injective n m delete_slot create_slot h k e = ground arith
key-injective n m delete_slot get_slot h k e = ground arith
key-injective n m delete_slot delete_slot h k e = (
  (append_sep_injective b'/' n m (str "{id}") (str "{id}") h k
      (append_cancel_left (str "DELETE /v1/projects/{project}/locations/{location}/") _ _ e)).0,
  refl,
)

-- Two routes of collection services whose names are single path segments have the same method and
-- pattern only if they are the same route of the same service: no collection service takes a
-- request from another one.
pub route_key_determines :
    (n m : Text) (rt other : Route (Handler State))
    → IsSegment n
    → IsSegment m
    → Elem rt (routes n)
    → Elem other (routes m)
    → route_key rt ≡ route_key other
    → (n ≡ m) × (rt ≡ other)
route_key_determines n m rt other h k a b e =
    let (s, p) = slot_of n rt a in
    let (t, q) = slot_of m other b in
    let (same, slot) = key-injective n m s t h k (sym (ap route_key p) ∙ e ∙ ap route_key q) in
    (same, p ∙ cc (same, slot) ∙ sym q)
