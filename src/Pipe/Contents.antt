-- ===== src/Pipe/Contents.antt =====
-- A pipe as the list of the bytes that are in it.
use linux_0_12_study.Base.{
  List, [], ap, arith, refl, suc, sym, zero, ℕ, ◌%◌, ◌++◌, ◌+◌, ◌<◌, ◌∙◌, ◌∷◌, ◌≡◌, ◌≤◌,
}
use linux_0_12_study.Pipe.{Pipe, page_size, pipe_size, fetch}

-- n bytes from offset t on, around the end of the page
abbrev pub bytes : (ℕ → ℕ) → ℕ → ℕ → List ℕ
bytes page zero t = []
bytes page (suc n) t = page (t % page_size) ∷ bytes page n (t + 1)

abbrev pub contents : Pipe → List ℕ
contents p = bytes p.page (pipe_size p) p.tail

pub record IsPipe (p : Pipe) : Type 0 where
  pub head_range : p.head < page_size
  pub tail_range : p.tail < page_size

pub fetch-bytes : (page : ℕ → ℕ) (n t : ℕ) → t + n ≤ page_size → fetch page n t ≡ bytes page n t
fetch-bytes page zero t h = refl
fetch-bytes page (suc n) t h =
    let e : t % page_size ≡ t = omega arith in rw (e, fetch-bytes page n (t + 1) (omega arith)) refl

pub bytes-append :
    (page : ℕ → ℕ) (a b t : ℕ) → bytes page (a + b) t ≡ bytes page a t ++ bytes page b (t + a)
bytes-append page zero b t =
    let e : 0 + b ≡ b = omega arith in let f : t + 0 ≡ t = omega arith in rw (e, f) refl
bytes-append page (suc a) b t =
    let e : suc a + b ≡ suc (a + b) = omega arith in
    let f : t + suc a ≡ t + 1 + a = omega arith in
    rw (e, f) (ap (λ l. page (t % page_size) ∷ l) (bytes-append page a b (t + 1)))

pub bytes-mod : (page : ℕ → ℕ) (n t : ℕ) → bytes page n (t % page_size) ≡ bytes page n t
bytes-mod page zero t = refl
bytes-mod page (suc n) t =
    let e : t % page_size % page_size ≡ t % page_size = omega arith in
    rw e (
      ap (λ l. page (t % page_size) ∷ l)
        (sym (bytes-mod page n (t % page_size + 1))
          ∙ ap (bytes page n) {x = (t % page_size + 1) % page_size} {y = (t + 1) % page_size}
              (omega arith)
          ∙ bytes-mod page n (t + 1)))

pub bytes-ext :
    (page page' : ℕ → ℕ) (n t : ℕ)
    → ((i : ℕ) → i < n → page' ((t + i) % page_size) ≡ page ((t + i) % page_size))
    → bytes page' n t ≡ bytes page n t
bytes-ext page page' zero t h = refl
bytes-ext page page' (suc n) t h =
    let e : (t + 0) % page_size ≡ t % page_size = omega arith in
    let first : page' (t % page_size) ≡ page (t % page_size) =
      ap page' (sym e) ∙ h 0 (omega arith) ∙ ap page e in
    let rest = bytes-ext page page' n (t + 1) (λ i l.
      let f : (t + 1 + i) % page_size ≡ (t + suc i) % page_size = omega arith in
      ap page' f ∙ h (suc i) (omega arith) ∙ ap page (sym f)) in
    rw (first, rest) refl
