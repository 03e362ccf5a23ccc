-- ===== src/Gcs/Sound.antt =====
-- The invariant of the state of internal/service/gcs/gcs.go, and reads after uploads.
use mathlib.Core.Option
use kiri_gcp.Prelude.{
  ◌≡◌, ◌≢◌, refl, sym, ap, ◌∙◌, inl, inr, Bool, true, false, Option, none, some, [], if◌then◌else◌,
  Bool-cases, subst,
}
use kiri_gcp.Text.{Text, text_eq}
use kiri_gcp.Text.Laws.{text_eq_iff}
use kiri_gcp.GoMap.{GoMap, get, put, delete, has}
use kiri_gcp.GoMap.Laws.{get-put, get-delete}
use kiri_gcp.Gcs.{Bucket, Object, UploadSession, State, put_object, or_no_objects}
use kiri_gcp.Gcs.Objects.{lookup}

-- A bucket and an object are kept under their own names, an object has a name, each bucket has its
-- map of objects, and an upload that is in progress has a name.
pub record IsSound (s : State) : Type 0 where
  pub bucket_named : (n : Text) (b : Bucket) → get n s.buckets ≡ some b → b.name ≡ n
  pub object_named : (b n : Text) (o : Object) → lookup b n s ≡ some o → (o.name ≡ n) × (n ≢ [])
  pub listed : (b : Text) → has b s.buckets ≡ true → has b s.objects ≡ true
  pub session_named : (i : Text) (u : UploadSession) → get i s.sessions ≡ some u → u.name ≢ []

get-or_no_objects :
    (n : Text) (m : Option (GoMap Object)) → get n (or_no_objects m) ≡ Option.bind m (get n)
unfolding get Option.bind
get-or_no_objects n none = refl
get-or_no_objects n (some m) = refl

pub lookup-put_object :
    (b c n : Text) (o : Object) (s : State)
    → lookup c n (put_object b o s)
      ≡ (if text_eq b c then (if text_eq o.name n then some o else lookup b n s) else lookup c n s)
unfolding lookup put_object Option.bind text_eq
lookup-put_object b c n o s =
    let inner = or_no_objects (get b s.objects) in
    ap (λ (m : Option (GoMap Object)). Option.bind m (get n))
      (get-put b c (put o.name o inner) s.objects)
    ∙ elim (Bool-cases (text_eq b c)) [
      | inl e ↦ rw (e, get-put o.name n o inner, get-or_no_objects n (get b s.objects)) refl
      | inr e ↦ rw e refl
    ]

put_object_named :
    (b c n : Text) (o p : Object) (s : State)
    → IsSound s
    → o.name ≢ []
    → lookup c n (put_object b o s) ≡ some p
    → (p.name ≡ n) × (n ≢ [])
put_object_named b c n o p s h k e =
    pick (text_eq b c) (text_eq o.name n) ((text_eq_iff o.name n).0)
      (sym (lookup-put_object b c n o s) ∙ e)
  where
    pick :
        (x y : Bool)
        → (y ≡ true → o.name ≡ n)
        → (if x then (if y then some o else lookup b n s) else lookup c n s) ≡ some p
        → (p.name ≡ n) × (n ≢ [])
    pick true true t q =
        let same : o ≡ p = cc in
        (ap (λ (x : Object). x.name) (sym same) ∙ t refl, λ z. k (t refl ∙ z))
    pick true false t q = h.object_named b n p q
    pick false y t q = h.object_named c n p q

put_object_listed :
    (b c : Text) (o : Object) (s : State)
    → IsSound s
    → has c s.buckets ≡ true
    → has c (put_object b o s).objects ≡ true
unfolding put_object
put_object_listed b c o s h e =
    rw (get-put b c (put o.name o (or_no_objects (get b s.objects))) s.objects)
      (elim (Bool-cases (text_eq b c)) [ inl t ↦ rw t refl | inr t ↦ rw t (h.listed c e) ])

pub put_object-IsSound :
    (b : Text) (o : Object) (s : State) → IsSound s → o.name ≢ [] → IsSound (put_object b o s)
unfolding put_object
put_object-IsSound b o s h n = record {
  bucket_named = h.bucket_named;
  object_named = λ c m p e. put_object_named b c m o p s h n (unfold put_object in e);
  listed = λ c e. (unfold put_object in put_object_listed b c o s h e);
  session_named = h.session_named;
}

-- A bucket that is made without objects.
pub new_bucket-IsSound :
    (b : Bucket) (s : State)
    → IsSound s
    → IsSound (record s { buckets = put b.name b s.buckets; objects = put b.name [] s.objects })
unfolding lookup Option.bind get
new_bucket-IsSound b s h = record {
  bucket_named = λ n x e. named n x e;
  object_named = λ c n o e. objects c n o e;
  listed = λ c e. listed c e;
  session_named = h.session_named;
}
  where
    named : (n : Text) (x : Bucket) → get n (put b.name b s.buckets) ≡ some x → x.name ≡ n
    named n x = rw (get-put b.name n b s.buckets) (elim (Bool-cases (text_eq b.name n)) [
      | inl t ↦ rw t λ e.
          (let same : b ≡ x = cc in
            ap (λ (y : Bucket). y.name) (sym same) ∙ (text_eq_iff b.name n).0 t)
      | inr t ↦ rw t λ e. h.bucket_named n x e
    ])

    objects :
        (c n : Text) (o : Object)
        → Option.bind (get c (put b.name [] s.objects)) (get n) ≡ some o
        → (o.name ≡ n) × (n ≢ [])
    objects c n o = rw (get-put b.name c [] s.objects) (elim (Bool-cases (text_eq b.name c)) [
      | inl t ↦ rw t λ e. cc
      | inr t ↦ rw t λ e. h.object_named c n o e
    ])

    listed :
        (c : Text) → has c (put b.name b s.buckets) ≡ true → has c (put b.name [] s.objects) ≡ true
    listed c =
        rw (get-put b.name c [] s.objects, get-put b.name c b s.buckets)
          (elim (Bool-cases (text_eq b.name c)) [
            | inl t ↦ rw t λ e. refl
            | inr t ↦ rw t λ e. h.listed c e
          ])

-- A bucket that is deleted with its objects.
pub no_bucket-IsSound :
    (b : Text) (s : State)
    → IsSound s
    → IsSound (record s { buckets = delete b s.buckets; objects = delete b s.objects })
unfolding lookup Option.bind get
no_bucket-IsSound b s h = record {
  bucket_named = λ n x e. named n x e;
  object_named = λ c n o e. objects c n o e;
  listed = λ c e. listed c e;
  session_named = h.session_named;
}
  where
    named : (n : Text) (x : Bucket) → get n (delete b s.buckets) ≡ some x → x.name ≡ n
    named n x = rw (get-delete b n s.buckets) (elim (Bool-cases (text_eq b n)) [
      | inl t ↦ rw t λ e. cc
      | inr t ↦ rw t λ e. h.bucket_named n x e
    ])

    objects :
        (c n : Text) (o : Object)
        → Option.bind (get c (delete b s.objects)) (get n) ≡ some o
        → (o.name ≡ n) × (n ≢ [])
    objects c n o = rw (get-delete b c s.objects) (elim (Bool-cases (text_eq b c)) [
      | inl t ↦ rw t λ e. cc
      | inr t ↦ rw t λ e. h.object_named c n o e
    ])

    listed : (c : Text) → has c (delete b s.buckets) ≡ true → has c (delete b s.objects) ≡ true
    listed c =
        rw (get-delete b c s.objects, get-delete b c s.buckets)
          (elim (Bool-cases (text_eq b c)) [
            | inl t ↦ rw t λ e. cc
            | inr t ↦ rw t λ e. h.listed c e
          ])

-- One object less.
pub no_object-IsSound :
    (b n : Text) (m : GoMap Object) (s : State)
    → IsSound s
    → get b s.objects ≡ some m
    → IsSound (record s { objects = put b (delete n m) s.objects })
unfolding lookup Option.bind get
no_object-IsSound b n m s h k = record {
  bucket_named = h.bucket_named;
  object_named = λ c i o e. objects c i o e;
  listed = λ c e. listed c e;
  session_named = h.session_named;
}
  where
    objects :
        (c i : Text) (o : Object)
        → Option.bind (get c (put b (delete n m) s.objects)) (get i) ≡ some o
        → (o.name ≡ i) × (i ≢ [])
    objects c i o = rw (get-put b c (delete n m) s.objects) (elim (Bool-cases (text_eq b c)) [
      | inl t ↦
          rw (t, get-delete n i m)
            (elim (Bool-cases (text_eq n i)) [
              | inl u ↦ rw u λ e. cc
              | inr u ↦ rw u λ e.
                  h.object_named b i o
                    (ap (λ (x : Option (GoMap Object)). Option.bind x (get i)) k ∙ e)
            ])
      | inr t ↦ rw t λ e. h.object_named c i o e
    ])

    listed : (c : Text) → has c s.buckets ≡ true → has c (put b (delete n m) s.objects) ≡ true
    listed c = rw (get-put b c (delete n m) s.objects) (elim (Bool-cases (text_eq b c)) [
      | inl t ↦ rw t λ e. refl
      | inr t ↦ rw t λ e. h.listed c e
    ])

-- The sessions change, and each still has a name.
sessions-IsSound :
    (m : GoMap UploadSession) (s : State)
    → IsSound s
    → ((i : Text) (u : UploadSession) → get i m ≡ some u → u.name ≢ [])
    → IsSound (record s { sessions = m })
unfolding lookup
sessions-IsSound m s h k = record {
  bucket_named = h.bucket_named;
  object_named = h.object_named;
  listed = h.listed;
  session_named = k;
}

pub new_session-IsSound :
    (i : Text) (u : UploadSession) (s : State)
    → IsSound s
    → u.name ≢ []
    → IsSound (record s { sessions = put i u s.sessions })
new_session-IsSound i u s h k = sessions-IsSound (put i u s.sessions) s h λ j v e. named j v e
  where
    named : (j : Text) (v : UploadSession) → get j (put i u s.sessions) ≡ some v → v.name ≢ []
    named j v = rw (get-put i j u s.sessions) (elim (Bool-cases (text_eq i j)) [
      | inl t ↦
          rw t λ e. (let same : u ≡ v = cc in subst (λ (x : UploadSession). x.name ≢ []) same k)
      | inr t ↦ rw t λ e. h.session_named j v e
    ])

pub no_session-IsSound :
    (i : Text) (s : State) → IsSound s → IsSound (record s { sessions = delete i s.sessions })
no_session-IsSound i s h = sessions-IsSound (delete i s.sessions) s h λ j v e. named j v e
  where
    named : (j : Text) (v : UploadSession) → get j (delete i s.sessions) ≡ some v → v.name ≢ []
    named j v = rw (get-delete i j s.sessions) (elim (Bool-cases (text_eq i j)) [
      | inl t ↦ rw t λ e. cc
      | inr t ↦ rw t λ e. h.session_named j v e
    ])
