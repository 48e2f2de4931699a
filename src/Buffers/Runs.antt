-- ===== src/Buffers/Runs.antt =====
-- Code that may sleep or panic, as ver05/fs/buffer.c does.
use linux_0_12_study.Base.{Bool, false, if◌then◌else◌, refl, true, ◌≡◌}
use linux_0_12_study.Buffers.{Cache}

-- It returns a value and leaves a cache, it panics, or the fuel ends before it has.
pub data Run (A : Type 0) : Type 0 where
  done : A → Cache → Run A
  panics : Run A
  asleep : Run A

abbrev pub Op : Type 0 → Type 0
Op A = Cache → Run A

abbrev pub follow : {A B : Type 0} → Run A → (A → Op B) → Run B
follow (done a c) f = f a c
follow panics f = panics
follow asleep f = asleep

infixl 10 ◌>>=◌ ◌>>◌
abbrev pub ◌>>=◌ : {A B : Type 0} → Op A → (A → Op B) → Op B
◌>>=◌ m f c = follow (m c) f

abbrev pub ◌>>◌ : {A B : Type 0} → Op A → Op B → Op B
m >> n = m >>= λ _. n

abbrev pub pure : {A : Type 0} → A → Op A
pure a c = done a c

abbrev pub panic : {A : Type 0} → Op A
panic c = panics

abbrev pub gets : {A : Type 0} → (Cache → A) → Op A
gets f c = done (f c) c

abbrev pub modify : (Cache → Cache) → Op (Unit {0})
modify f c = done tt (f c)

-- If it returns, the value and the cache are as Q says.
abbrev pub Ends : {A : Type 0} → (A → Cache → Type 0) → Run A → Type 0
Ends Q (done a c) = Q a c
Ends Q panics = Unit
Ends Q asleep = Unit

pub Ends-bind :
    {A B : Type 0} (Q : B → Cache → Type 0) (r : Run A) (f : A → Op B)
    → ((a : A) (c : Cache) → r ≡ done a c → Ends Q (f a c))
    → Ends Q (follow r f)
Ends-bind Q (done a c) f h = h a c refl
Ends-bind Q panics f h = tt
Ends-bind Q asleep f h = tt

pub Ends-map :
    {A : Type 0} (P Q : A → Cache → Type 0) (r : Run A)
    → ((a : A) (c : Cache) → P a c → Q a c)
    → Ends P r
    → Ends Q r
Ends-map P Q (done a c) h e = h a c e
Ends-map P Q panics h e = tt
Ends-map P Q asleep h e = tt

-- In either branch of a test.
pub Ends-if :
    {A : Type 0} (Q : A → Cache → Type 0) (t : Bool) (m n : Op A) (c : Cache)
    → (t ≡ true → Ends Q (m c))
    → Ends Q (n c)
    → Ends Q ((if t then m else n) c)
Ends-if Q true m n c h k = h refl
Ends-if Q false m n c h k = k
