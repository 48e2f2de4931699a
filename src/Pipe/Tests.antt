-- ===== src/Pipe/Tests.antt =====
-- A pipe whose free bytes go around the end of the page.
use linux_0_12_study.Base.{List, [], arith, length, refl, some, ℕ, ◌%◌, ◌++◌, ◌∷◌, ◌≡◌}
use linux_0_12_study.Pipe.{Pipe, read_pipe, write_pipe}
use linux_0_12_study.Pipe.Contents.{contents, IsPipe}
use linux_0_12_study.Pipe.Read.{read_pipe-contents}
use linux_0_12_study.Pipe.Write.{write_pipe-contents}

-- It holds the three bytes 94, 95 and 0.
abbrev three : Pipe
three = record { page = λ x. x % 1000; head = 1; tail = 4094; i_count = 2; signal = 0; blocked = 0 }

three-IsPipe : IsPipe three
three-IsPipe = record { head_range = omega arith; tail_range = omega arith }

contents_run : contents three ≡ 94 ∷ 95 ∷ 0 ∷ []
contents_run = refl

read_pipe_example :
    (out : List ℕ) × (p' : Pipe) × (read_pipe (λ p. p) 9 2 three ≡ some (2, out, p'))
    × (contents three ≡ out ++ contents p')
    × (length out ≡ 2)
    × IsPipe p'
read_pipe_example = read_pipe-contents (λ p. p) 9 2 three three-IsPipe (omega arith) (omega arith)

write_pipe_example :
    (p' : Pipe) × (write_pipe (λ p. p) 9 (λ i. 7) 2 three ≡ some (2, p'))
    × (contents p' ≡ 94 ∷ 95 ∷ 0 ∷ 7 ∷ 7 ∷ [])
    × IsPipe p'
write_pipe_example =
    write_pipe-contents (λ p. p) 9 (λ i. 7) 2 three three-IsPipe (omega arith) (omega arith)
