-- ===== src/Collection/Isolation.antt =====
-- Collections of different projects or locations do not see one another's resources.
use kiri_gcp.Prelude.{◌≡◌, sym, ◌∙◌, true, ◌++◌, append_assoc}
use kiri_gcp.Text.{Text, str, has_prefix}
use kiri_gcp.Text.Laws.{has_prefix_rest, append_cancel_left, append_sep_injective}
use kiri_gcp.Http.{Request}
use kiri_gcp.Collection.Routes.{IsSegment}
use kiri_gcp.Collection.{parent, created_name, item_id}

parent_append :
    (service_name rest : Text) (r : Request)
    → parent service_name r ++ rest
      ≡ str "projects/"
        ++ (r.path_value (str "project")
            ++ (str "/locations/"
                ++ (r.path_value (str "location") ++ (str "/" ++ (service_name ++ rest)))))
unfolding parent
parent_append service_name rest r = simp append_assoc

-- The two path segments of a name are determined by the name.
segments_determined :
    (p l q m u v : Text)
    → IsSegment p
    → IsSegment q
    → IsSegment l
    → IsSegment m
    → str "projects/" ++ (p ++ (str "/locations/" ++ (l ++ (str "/" ++ u))))
      ≡ str "projects/" ++ (q ++ (str "/locations/" ++ (m ++ (str "/" ++ v))))
    → (p ≡ q) × (l ≡ m)
unfolding str
segments_determined p l q m u v hp hq hl hm e =
    let (first, more) =
      append_sep_injective b'/' p q _ _ hp hq (append_cancel_left (str "projects/") _ _ e) in
    let (second, _) =
      append_sep_injective b'/' l m u v hl hm (append_cancel_left (str "locations/") _ _ more) in
    (first, second)

-- For requests whose project and location are single path segments: the name that a create request
-- makes stands below the collection that another request lists only if both requests name the same
-- project and the same location.
pub listed_same_parent :
    (service_name : Text) (r c : Request)
    → IsSegment (r.path_value (str "project"))
    → IsSegment (c.path_value (str "project"))
    → IsSegment (r.path_value (str "location"))
    → IsSegment (c.path_value (str "location"))
    → has_prefix (created_name service_name c) (parent service_name r ++ str "/") ≡ true
    → (r.path_value (str "project") ≡ c.path_value (str "project"))
      × (r.path_value (str "location") ≡ c.path_value (str "location"))
unfolding created_name
listed_same_parent service_name r c rp cp rl cl h =
    let (rest, e) = has_prefix_rest _ (parent service_name r ++ str "/") h in
    segments_determined (r.path_value (str "project")) (r.path_value (str "location"))
      (c.path_value (str "project")) (c.path_value (str "location"))
      (service_name ++ (str "/" ++ rest)) (service_name ++ (str "/" ++ item_id c)) rp cp rl cl
      (sym (parent_append service_name (str "/" ++ rest) r)
        ∙ sym (append_assoc (parent service_name r) (str "/") rest)
        ∙ sym e
        ∙ parent_append service_name (str "/" ++ item_id c) c)
