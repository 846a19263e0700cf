-- ===== src/Crud/Reviews.antt =====
-- Reviews and their comments in app/crud.py.
pub mod Sound
use mathlib.Core.Option
use reservac_ia.Base.{
  ℕ, suc, Bool, true, ◌&&◌, ◌||◌, Option, none, some, List, [], ◌∷◌, ◌++◌, ltb, leb, ◌==◌,
  if◌then◌else◌, is_some, find, take, drop, select, update_where, order_by, Text, not,
}
use reservac_ia.Model.{Env, Db, Review, ReviewComment}
use reservac_ia.Model.Payloads.{
  is_set, get_nullable, get_required, ReviewCreate, ReviewUpdate, ReviewCommentCreate,
  ReviewCommentUpdate,
}
use reservac_ia.Monad.{
  integrity_error, Action, pure, raise_if, gets, modify, or_raise, now, ◌>>=◌, ◌>>◌,
}

-- A review's dict with its nested "comments".
pub record ReviewOut : Type 0 where
  pub review : Review
  pub comments : List ReviewComment

abbrev pub at_least : Option ℕ → Review → Bool
at_least none r = true
at_least (some min_rating) r = leb min_rating r.rating

-- `ORDER BY created_at DESC, id DESC`
abbrev pub latest_first : Review → Review → Bool
latest_first a b = ltb b.created_at a.created_at || a.created_at == b.created_at && leb b.id a.id

unfoldable pub list_reviews : Db → (limit offset : ℕ) → (min_rating : Option ℕ) → List Review
list_reviews db limit offset min_rating =
    take limit (drop offset (order_by latest_first (select (at_least min_rating) db.reviews)))

-- `_fetch_review_row`
abbrev pub review_row : Db → ℕ → Option Review
review_row db review_id = find (λ r. r.id == review_id) db.reviews

-- `ORDER BY created_at ASC, id ASC`
abbrev pub oldest_first : ReviewComment → ReviewComment → Bool
oldest_first a b = ltb a.created_at b.created_at || a.created_at == b.created_at && leb a.id b.id

unfoldable pub list_review_comments : Db → ℕ → List ReviewComment
list_review_comments db review_id =
    order_by oldest_first (select (λ c. c.review_id == review_id) db.review_comments)

unfoldable pub get_review : Db → ℕ → Option ReviewOut
get_review db review_id =
    Option.map (λ r. record { review = r; comments = list_review_comments db review_id })
      (review_row db review_id)

-- `CHECK (rating BETWEEN 1 AND 5)`
abbrev pub rating_allowed : ℕ → Bool
rating_allowed rating = leb 1 rating && leb rating 5

abbrev pub new_review : ℕ → ReviewCreate → ℕ → Review
new_review id body now_at = record {
  id = id;
  reviewer_name = body.reviewer_name;
  reviewer_city = body.reviewer_city;
  rating = body.rating;
  body = body.body;
  created_at = now_at;
  updated_at = now_at;
}

abbrev pub add_review : Review → Db → Db
add_review r db = record db { reviews = db.reviews ++ r ∷ []; review_seq = suc db.review_seq }

unfoldable pub create_review : Env → ReviewCreate → Action (Option ReviewOut)
create_review env body = do
  raise_if (not (rating_allowed body.rating)) integrity_error
  now_at ← now env
  id ← gets (λ db. suc db.review_seq)
  modify (add_review (new_review id body now_at))
  gets (λ db. get_review db id)

abbrev pub changed_review : Review → ReviewUpdate → Text → ℕ → Text → ℕ → Review
changed_review existing changes name rating body now_at = record existing {
  reviewer_name = name;
  reviewer_city = get_nullable changes.reviewer_city existing.reviewer_city;
  rating = rating;
  body = body;
  updated_at = now_at;
}

abbrev pub put_review : ℕ → Review → Db → Db
put_review review_id r db = record db {
  reviews = update_where (λ x. x.id == review_id) (λ _. r) db.reviews;
}

-- The UPDATE: a NULL in a NOT NULL column and a rating out of range are IntegrityErrors.
unfoldable pub write_review : Env → ℕ → ReviewUpdate → Review → Action (Option ReviewOut)
write_review env review_id changes existing = do
  name ← or_raise integrity_error (get_required changes.reviewer_name existing.reviewer_name)
  rating ← or_raise integrity_error (get_required changes.rating existing.rating)
  body ← or_raise integrity_error (get_required changes.body existing.body)
  raise_if (not (rating_allowed rating)) integrity_error
  now_at ← now env
  modify (put_review review_id (changed_review existing changes name rating body now_at))
  gets (λ db. get_review db review_id)

abbrev pub changes_review : ReviewUpdate → Bool
changes_review changes =
    is_set changes.reviewer_name
    || (is_set changes.reviewer_city || (is_set changes.rating || is_set changes.body))

unfoldable pub update_review : Env → ℕ → ReviewUpdate → Action (Option ReviewOut)
unfolding write_review
update_review env review_id changes = do
  row ← gets (λ db. review_row db review_id)
  elim row [
    | none ↦ pure none
    | some existing ↦
        if changes_review changes
        then write_review env review_id changes existing
        else gets (λ db. get_review db review_id)
  ]

unfoldable pub get_review_comment : Db → ℕ → Option ReviewComment
get_review_comment db comment_id = find (λ c. c.id == comment_id) db.review_comments

abbrev pub new_comment : ℕ → ℕ → ReviewCommentCreate → ℕ → ReviewComment
new_comment id review_id comment now_at = record {
  id = id;
  review_id = review_id;
  author_role = comment.author_role;
  author_name = comment.author_name;
  body = comment.body;
  created_at = now_at;
  updated_at = now_at;
}

abbrev pub add_comment : ReviewComment → Db → Db
add_comment c db = record db {
  review_comments = db.review_comments ++ c ∷ [];
  review_comment_seq = suc db.review_comment_seq;
}

-- The foreign key of the INSERT asks for the review.
unfoldable pub create_review_comment : Env → ℕ → ReviewCommentCreate → Action (Option ReviewComment)
create_review_comment env review_id comment = do
  known ← gets (λ db. is_some (review_row db review_id))
  raise_if (not known) integrity_error
  now_at ← now env
  id ← gets (λ db. suc db.review_comment_seq)
  modify (add_comment (new_comment id review_id comment now_at))
  gets (λ db. get_review_comment db id)

abbrev pub put_comment : ℕ → ReviewComment → Db → Db
put_comment comment_id c db = record db {
  review_comments = update_where (λ x. x.id == comment_id) (λ _. c) db.review_comments;
}

unfoldable pub write_comment :
    Env → ℕ → ReviewCommentUpdate → ReviewComment → Action (Option ReviewComment)
write_comment env comment_id changes existing = do
  body ← or_raise integrity_error (get_required changes.body existing.body)
  now_at ← now env
  modify (put_comment comment_id (record existing { body = body; updated_at = now_at }))
  gets (λ db. get_review_comment db comment_id)

unfoldable pub update_review_comment : Env → ℕ → ReviewCommentUpdate → Action (Option ReviewComment)
unfolding write_comment get_review_comment
update_review_comment env comment_id changes = do
  row ← gets (λ db. get_review_comment db comment_id)
  elim row [
    | none ↦ pure none
    | some existing ↦
        if is_set changes.body
        then write_comment env comment_id changes existing
        else pure (some existing)
  ]
