-- ===== src/Crud/Reviews/Sound.antt =====
-- The operations on reviews of app/crud.py: ratings in range, and comments with their review.
use reservac_ia.Base.{
  ℕ, suc, ◌≡◌, refl, true, List, [], ◌∷◌, ◌++◌, ◌==◌, ==_iff, find, find-some, find-All, is_some,
  update_where, All, All-imp, All-snoc, All-update_where_keep, Option-cases, Bool-cases, inl, inr,
  arith,
}
use reservac_ia.Model.{Env, Db, Review, ReviewComment}
use reservac_ia.Model.Payloads.{
  is_set, get_required, ReviewCreate, ReviewUpdate, ReviewCommentCreate, ReviewCommentUpdate,
}
use reservac_ia.Monad.{State}
use reservac_ia.Crud.Reviews.{
  create_review, update_review, write_review, create_review_comment, update_review_comment,
  write_comment, rating_allowed, review_row, get_review_comment, changes_review, new_review,
  put_review, changed_review, new_comment,
}

abbrev pub HasReview : Db → ReviewComment → Type 0
HasReview db c = is_some (review_row db c.review_id) ≡ true

pub record IsSound (db : Db) : Type 0 where
  pub rated : All (λ r. rating_allowed r.rating ≡ true) db.reviews
  pub owned : All (HasReview db) db.review_comments

-- Lookups after each kind of change.
found-snoc :
    (j : ℕ) (rows : List Review) (r : Review)
    → is_some (find (λ x. x.id == j) rows) ≡ true
    → is_some (find (λ x. x.id == j) (rows ++ r ∷ [])) ≡ true
found-snoc j [] r h = absurd (ground arith)
found-snoc j (x ∷ rows) r h = elim (Bool-cases (x.id == j)) [
  | inl e ↦ rw e refl
  | inr e ↦ rw e (found-snoc j rows r (rw e at h))
]

found-put :
    (i j : ℕ) (rows : List Review) (r : Review)
    → r.id ≡ i
    → is_some (find (λ x. x.id == j) rows) ≡ true
    → is_some (find (λ x. x.id == j) (update_where (λ x. x.id == i) (λ _. r) rows)) ≡ true
found-put i j [] r e h = h
found-put i j (x ∷ rows) r e h = ground (arith, found-put i j rows r)

module _ (env : Env) where
  pub create_review-IsSound :
      (body : ReviewCreate) (s : State) → IsSound s.db → IsSound (create_review env body s).1.db
  unfolding create_review
  create_review-IsSound body s v = elim (Bool-cases (rating_allowed body.rating)) [
    | inr f ↦ rw f v
    | inl e ↦
        let r = new_review (suc s.db.review_seq) body (env.clock s.reads) in
        rw e (record {
          rated = All-snoc (λ x. rating_allowed x.rating ≡ true) s.db.reviews r v.rated e;
          owned =
              All-imp _ _ (λ c h. found-snoc c.review_id s.db.reviews r h) s.db.review_comments
                v.owned;
        })
  ]

  put_review-IsSound :
      (i : ℕ) (r : Review) (db : Db)
      → IsSound db
      → r.id ≡ i
      → rating_allowed r.rating ≡ true
      → IsSound (put_review i r db)
  put_review-IsSound i r db v e ok_rating = record {
    rated =
        All-update_where_keep (λ x. rating_allowed x.rating ≡ true) (λ x. x.id == i) (λ _. r)
          db.reviews (λ _ _. ok_rating) v.rated;
    owned =
        All-imp _ _ (λ c h. found-put i c.review_id db.reviews r e h) db.review_comments v.owned;
  }

  write_review-IsSound :
      (i : ℕ) (changes : ReviewUpdate) (old : Review) (s : State)
      → IsSound s.db
      → old.id ≡ i
      → IsSound (write_review env i changes old s).1.db
  unfolding write_review
  write_review-IsSound i changes old s v e =
      elim (Option-cases (get_required changes.reviewer_name old.reviewer_name)) [
        | inl a ↦ rw a v
        | inr (name, a) ↦ elim (Option-cases (get_required changes.rating old.rating)) [
          | inl b ↦ rw (a, b) v
          | inr (rating, b) ↦ elim (Option-cases (get_required changes.body old.body)) [
            | inl c ↦ rw (a, b, c) v
            | inr (body, c) ↦ elim (Bool-cases (rating_allowed rating)) [
              | inr f ↦ rw (a, b, c, f) v
              | inl t ↦
                  rw (a, b, c, t)
                    (put_review-IsSound i
                      (changed_review old changes name rating body (env.clock s.reads)) s.db v e t)
            ]
          ]
        ]
      ]

  pub update_review-IsSound :
      (i : ℕ) (changes : ReviewUpdate) (s : State)
      → IsSound s.db
      → IsSound (update_review env i changes s).1.db
  unfolding update_review
  update_review-IsSound i changes s v = elim (Option-cases (review_row s.db i)) [
    | inl e ↦ rw e v
    | inr (old, e) ↦ elim (Bool-cases (changes_review changes)) [
      | inl b ↦
          rw (e, b)
            (write_review-IsSound i changes old s v
              ((==_iff _ _).0 (find-some (λ x. x.id == i) s.db.reviews {x = old} e)))
      | inr b ↦ rw (e, b) v
    ]
  ]

  pub create_review_comment-IsSound :
      (i : ℕ) (comment : ReviewCommentCreate) (s : State)
      → IsSound s.db
      → IsSound (create_review_comment env i comment s).1.db
  unfolding create_review_comment
  create_review_comment-IsSound i comment s v = elim (Bool-cases (is_some (review_row s.db i))) [
    | inr f ↦ rw f v
    | inl e ↦ rw e (record {
      rated = v.rated;
      owned =
          All-snoc (HasReview s.db) s.db.review_comments
            (new_comment (suc s.db.review_comment_seq) i comment (env.clock s.reads)) v.owned e;
    })
  ]

  pub update_review_comment-IsSound :
      (i : ℕ) (changes : ReviewCommentUpdate) (s : State)
      → IsSound s.db
      → IsSound (update_review_comment env i changes s).1.db
  unfolding update_review_comment write_comment get_review_comment
  update_review_comment-IsSound i changes s v =
      elim (Option-cases (find (λ c. c.id == i) s.db.review_comments)) [
        | inl e ↦ rw e v
        | inr (old, e) ↦ elim (Bool-cases (is_set changes.body)) [
          | inr b ↦ rw (e, b) v
          | inl b ↦ elim (Option-cases (get_required changes.body old.body)) [
            | inl n ↦ rw (e, b, n) v
            | inr (body, n) ↦
                let own : HasReview s.db old =
                  find-All (HasReview s.db) (λ c. c.id == i) s.db.review_comments {x = old} v.owned
                    e in
                rw (e, b, n)
                  (record {
                    rated = v.rated;
                    owned =
                        All-update_where_keep (HasReview s.db) (λ c. c.id == i) _
                          s.db.review_comments (λ _ _. own) v.owned;
                  })
          ]
        ]
      ]
