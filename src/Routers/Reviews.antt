-- ===== src/Routers/Reviews.antt =====
-- app/routers/reviews.py.
use reservac_ia.Base.{ℕ, not, Option, List, map, ◌==◌}
use reservac_ia.Model.{Env, ReviewComment}
use reservac_ia.Model.Payloads.{
  ReviewCreate, ReviewUpdate, ReviewCommentCreate, ReviewCommentUpdate,
}
use reservac_ia.Monad.{Action, http_error, raise_if, with_connection, gets, ◌>>=◌, ◌>>◌}
use reservac_ia.Crud.Reviews.{
  ReviewOut, list_reviews, list_review_comments, get_review, create_review, update_review,
  get_review_comment, create_review_comment, update_review_comment,
}
use reservac_ia.Routers.Status.{or_404}

unfoldable pub list_all : (limit offset : ℕ) → (min_rating : Option ℕ) → Action (List ReviewOut)
list_all limit offset min_rating = with_connection (
    gets (λ db.
      map (λ r. record { review = r; comments = list_review_comments db r.id })
        (list_reviews db limit offset min_rating)))

unfoldable pub create : Env → ReviewCreate → Action (Option ReviewOut)
create env body = with_connection (create_review env body)

unfoldable pub get_one : ℕ → Action ReviewOut
get_one review_id = do row ← with_connection (gets (λ db. get_review db review_id)); or_404 row

unfoldable pub update : Env → ℕ → ReviewUpdate → Action ReviewOut
update env review_id body = do
  updated ← with_connection (update_review env review_id body)
  or_404 updated

unfoldable pub list_comments : ℕ → Action (List ReviewComment)
list_comments review_id = with_connection (do
  row ← gets (λ db. get_review db review_id)
  or_404 row
  gets (λ db. list_review_comments db review_id))

unfoldable pub create_comment : Env → ℕ → ReviewCommentCreate → Action (Option ReviewComment)
create_comment env review_id body = with_connection (do
  row ← gets (λ db. get_review db review_id)
  or_404 row
  create_review_comment env review_id body)

unfoldable pub update_comment : Env → ℕ → ℕ → ReviewCommentUpdate → Action ReviewComment
update_comment env review_id comment_id body = do
  updated ← with_connection (do
    row ← gets (λ db. get_review_comment db comment_id)
    existing ← or_404 row
    raise_if (not (existing.review_id == review_id)) (http_error 404)
    update_review_comment env comment_id body)
  or_404 updated
