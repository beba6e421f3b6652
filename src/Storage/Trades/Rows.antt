-- ===== src/Storage/Trades/Rows.antt =====
-- What an UPDATE … WHERE id = $1 keeps of the rows of a table of trades.
use binance_oi_square_trader.Prelude.{
  All, if-elim, List, [], ◌∷◌, ℕ, ◌≡◌, ◌⊎◌, inl, inr, true, ◌==◌, Bool-cases,
}
use binance_oi_square_trader.Storage.Trades.{Trade, update_where_id}

module _ {D : Type 0} where
  pub All-update_where_id :
      (P : Trade D → Type 0) (id : ℕ) (f : Trade D → Trade D) (ts : List (Trade D))
      → ((t : Trade D) → P t → P (f t))
      → All P ts
      → All P (update_where_id id f ts)
  unfolding update_where_id
  All-update_where_id P id f [] keeps all = tt
  All-update_where_id P id f (t ∷ ts) keeps (h, all) =
      (if-elim P (t.id == id) (f t) t (keeps t h) h, All-update_where_id P id f ts keeps all)

  -- A row meets the condition, or it is the row with the number.
  abbrev pub ButFor : ℕ → (Trade D → Type 0) → Trade D → Type 0
  ButFor id P t = P t ⊎ ((t.id == id) ≡ true)

  -- An update that makes its own row meet the condition restores it everywhere.
  pub All-restored :
      (P : Trade D → Type 0) (id : ℕ) (f : Trade D → Trade D) (ts : List (Trade D))
      → ((t : Trade D) → P (f t))
      → All (ButFor id P) ts
      → All P (update_where_id id f ts)
  unfolding update_where_id
  All-restored P id f [] makes all = tt
  All-restored P id f (t ∷ ts) makes (h, all) = (
    elim h [ inl ok ↦ if-elim P (t.id == id) (f t) t (makes t) ok | inr e ↦ rw e (makes t) ],
    All-restored P id f ts makes all,
  )

  pub All-broken :
      (P : Trade D → Type 0) (id : ℕ) (f : Trade D → Trade D) (ts : List (Trade D))
      → ((t : Trade D) → (f t).id ≡ t.id)
      → All P ts
      → All (ButFor id P) (update_where_id id f ts)
  unfolding update_where_id
  All-broken P id f [] same all = tt
  All-broken P id f (t ∷ ts) same (h, all) = (
    elim (Bool-cases (t.id == id)) [ inl e ↦ rw e (inr (rw (same t) e)) | inr e ↦ rw e (inl h) ],
    All-broken P id f ts same all,
  )
