-- ===== src/Invariants/Rows.antt =====
-- What becomes of single rows: tokens age, and lines of the audit log are masked.
use vaulty.Prelude.{
  ℕ, zero, suc, Bool, true, false, inl, inr, List, [], ◌∷◌, ◌++◌, ◌≡◌, ◌⊎◌, refl, sym, ◌∙◌, ap,
  Text, all, update, if◌then◌else◌, arith, drop, take, replicate, length, length-take, drop-append,
  Bool-cases, leb, ◌-◌, ◌==◌,
}
use vaulty.Model.{Token, TokenStatus, AuditLogEntry}
use vaulty.Audit.{star, mask_token_id}

-- What may become of a token's row: its ids, its expiry and its age stay, and it may turn inactive.
pub record Ages (t u : Token) : Type 0 where
  pub same_id : u.id ≡ t.id
  pub same_tenant : u.tenant_id ≡ t.tenant_id
  pub same_token : u.token_id ≡ t.token_id
  pub same_index : u.pan_blind_index ≡ t.pan_blind_index
  pub same_month : u.expiry_month ≡ t.expiry_month
  pub same_year : u.expiry_year ≡ t.expiry_year
  pub same_age : u.created_at ≡ t.created_at
  pub status : (u.status ≡ t.status) ⊎ (u.status ≡ TokenStatus.inactive)

-- The old rows, aged, come first and in their order.
abbrev pub AllAge : List Token → List Token → Type 0
AllAge [] us = Unit
AllAge (t ∷ ts) [] = ⊥
AllAge (t ∷ ts) (u ∷ us) = Ages t u × AllAge ts us

pub Ages-refl : (t : Token) → Ages t t
Ages-refl t = record {
  same_id = refl;
  same_tenant = refl;
  same_token = refl;
  same_index = refl;
  same_month = refl;
  same_year = refl;
  same_age = refl;
  status = inl refl;
}

pub AllAge-refl : (ts : List Token) → AllAge ts ts
AllAge-refl [] = tt
AllAge-refl (t ∷ ts) = (Ages-refl t, AllAge-refl ts)

pub AllAge-append : (ts us vs : List Token) → AllAge ts us → AllAge ts (us ++ vs)
AllAge-append [] us vs h = tt
AllAge-append (t ∷ ts) [] vs h = absurd h
AllAge-append (t ∷ ts) (u ∷ us) vs (h, hs) = (h, AllAge-append ts us vs hs)

Ages-step :
    (b : Bool) (f : Token → Token) (t u : Token)
    → Ages t u
    → Ages u (f u)
    → Ages t (if b then f u else u)
Ages-step false f t u h k = h
Ages-step true f t u h k = record {
  same_id = k.same_id ∙ h.same_id;
  same_tenant = k.same_tenant ∙ h.same_tenant;
  same_token = k.same_token ∙ h.same_token;
  same_index = k.same_index ∙ h.same_index;
  same_month = k.same_month ∙ h.same_month;
  same_year = k.same_year ∙ h.same_year;
  same_age = k.same_age ∙ h.same_age;
  status = elim k.status [
    | inl stays ↦ elim h.status [ inl s ↦ inl (stays ∙ s) | inr off ↦ inr (stays ∙ off) ]
    | inr off ↦ inr off
  ];
}

pub AllAge-update :
    (q : Token → Bool) (f : Token → Token) (ts us : List Token)
    → ((t : Token) → Ages t (f t))
    → AllAge ts us
    → AllAge ts (update q f us)
AllAge-update q f [] us ages h = tt
AllAge-update q f (t ∷ ts) [] ages h = absurd h
AllAge-update q f (t ∷ ts) (u ∷ us) ages (h, hs) =
    (Ages-step (q u) f t u h (ages u), AllAge-update q f ts us ages hs)

-- Behind the twelfth character there are only stars.
abbrev pub is_masked : AuditLogEntry → Bool
is_masked e = all (λ b. b == star) (drop 12 e.token_id_masked)

all-replicate : (n : ℕ) → all (λ b. b == star) (replicate n star) ≡ true
all-replicate zero = refl
all-replicate (suc n) = ground (arith, all-replicate n)

drop_short : (n : ℕ) (t : Text) → leb (length t) n ≡ true → drop n t ≡ []
drop_short zero [] h = refl
drop_short zero (b ∷ t) h = ground arith
drop_short (suc n) [] h = refl
drop_short (suc n) (b ∷ t) h = drop_short n t (ground arith)

pub mask-is_masked : (t : Text) → all (λ b. b == star) (drop 12 (mask_token_id t)) ≡ true
unfolding mask_token_id
mask-is_masked t = elim (Bool-cases (leb (length t) 12)) [
  | inl short ↦ rw (short, drop_short 12 t short) refl
  | inr long ↦
      let e : length (take 12 t) ≡ 12 = ground (arith, length-take 12 t) in
      rw long (
        ap (λ n. all (λ b. b == star) (drop n (take 12 t ++ replicate (length t - 12) star)))
          (sym e)
        ∙ rw (drop-append (take 12 t) (replicate (length t - 12) star))
            (all-replicate (length t - 12)))
]

pub all-append_one :
    (p : AuditLogEntry → Bool) (xs : List AuditLogEntry) (x : AuditLogEntry)
    → all p xs ≡ true
    → p x ≡ true
    → all p (xs ++ x ∷ []) ≡ true
all-append_one p [] x h k = ground arith
all-append_one p (y ∷ xs) x h k = ground (arith, all-append_one p xs x)
