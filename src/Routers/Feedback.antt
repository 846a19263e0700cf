-- ===== src/Routers/Feedback.antt =====
-- Runs of requests to the routes of app/routers/reviews.py that write.
use reservac_ia.Base.{ℕ, ◌≡◌, not, ◌==◌}
use reservac_ia.Model.{Env, empty_db}
use reservac_ia.Model.Payloads.{
  ReviewCreate, ReviewUpdate, ReviewCommentCreate, ReviewCommentUpdate,
}
use reservac_ia.Monad.{State, http_error}
use reservac_ia.Monad.Leads.{
  Leads, bind-Preserves, with_connection-Leads, gets-Leads, or_raise-Leads, raise_if-Leads,
}
use reservac_ia.Crud.Reviews.{
  create_review, update_review, create_review_comment, update_review_comment, get_review,
  get_review_comment,
}
use reservac_ia.Crud.Reviews.Sound.{
  IsSound, create_review-IsSound, update_review-IsSound, create_review_comment-IsSound,
  update_review_comment-IsSound,
}
use reservac_ia.Routers.Reviews

pub data ReviewRequest : Type 0 where
  post_review : ReviewCreate → ReviewRequest
  patch_review : ℕ → ReviewUpdate → ReviewRequest
  post_comment : ℕ → ReviewCommentCreate → ReviewRequest
  patch_comment : (review_id comment_id : ℕ) → ReviewCommentUpdate → ReviewRequest

unfoldable pub serve_review : Env → ReviewRequest → State → State
serve_review env (post_review body) s = (Reviews.create env body s).1
serve_review env (patch_review i body) s = (Reviews.update env i body s).1
serve_review env (post_comment i body) s = (Reviews.create_comment env i body s).1
serve_review env (patch_comment i j body) s = (Reviews.update_comment env i j body s).1

pub data Served (env : Env) : State → Type 0 where
  started : (s : State) → s.db ≡ empty_db → Served env s
  served :
      (s : State) (request : ReviewRequest) → Served env s → Served env (serve_review env request s)

module _ (env : Env) where
  post_comment-Leads :
      (i : ℕ) (body : ReviewCommentCreate)
      → Leads IsSound IsSound (create_review_comment env i body)
  post_comment-Leads i body = record { run = create_review_comment-IsSound env i body }

  patch_comment-Leads :
      (i : ℕ) (body : ReviewCommentUpdate)
      → Leads IsSound IsSound (update_review_comment env i body)
  patch_comment-Leads i body = record { run = update_review_comment-IsSound env i body }

  serve_review-IsSound :
      (request : ReviewRequest) (s : State) → IsSound s.db → IsSound (serve_review env request s).db
  unfolding serve_review Reviews.create Reviews.update Reviews.create_comment Reviews.update_comment
  serve_review-IsSound (post_review body) s v =
      (with_connection-Leads (create_review env body)
          (record { run = create_review-IsSound env body })).run
        s v
  serve_review-IsSound (patch_review i body) s v =
      (bind-Preserves _ _
          (with_connection-Leads (update_review env i body)
            (record { run = update_review-IsSound env i body }))
          (λ row. or_raise-Leads (http_error 404) row)).run
        s v
  serve_review-IsSound (post_comment i body) s v =
      (with_connection-Leads _ (
          bind-Preserves _ _ (gets-Leads (λ db. get_review db i)) λ row.
            bind-Preserves _ _ (or_raise-Leads (http_error 404) row)
              λ _. post_comment-Leads i body)).run
        s v
  serve_review-IsSound (patch_comment i j body) s v =
      (bind-Preserves _ _
          (with_connection-Leads _ (
            bind-Preserves _ _ (gets-Leads (λ db. get_review_comment db j)) λ row.
              bind-Preserves _ _ (or_raise-Leads (http_error 404) row) λ existing.
                bind-Preserves _ _ (raise_if-Leads (not (existing.review_id == i)) (http_error 404))
                  λ _. patch_comment-Leads j body))
          (λ row. or_raise-Leads (http_error 404) row)).run
        s v

  -- In every database that a run of requests to the writing routes of the reviews makes of the
  -- empty one, every rating is between 1 and 5 and every comment has its review.
  pub Served-IsSound : (s : State) → Served env s → IsSound s.db
  Served-IsSound _ (started s e) = rw e (record { rated = tt; owned = tt })
  Served-IsSound _ (served s request run) = serve_review-IsSound request s (Served-IsSound s run)
