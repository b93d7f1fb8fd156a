-- ===== src/Hash/Tests.antt =====
-- The test vectors of src/hash.rs, and the theorems of its modules at a concrete message.
use httprove.Base.{◌≡◌, refl, List, ℕ, [], length, All, arith}
use httprove.Text.{codes}
use httprove.Hash.{sha256_hex, hex, sha256, absorb, words_bytes, pad, chunks_exact, pad_loop}
use httprove.Hash.Words.{compress, rounds, round, extend, next_word, chunk_words}
use httprove.Hash.Standard.{IsPadded, pad-IsPadded}
use httprove.Hash.Digest.{IsLowerHex, sha256_hex-IsLowerHex}

abbrev abc : List ℕ
abc = codes "abc"

digest_of_abc :
    sha256_hex abc ≡ codes "ba7816bf8f01cfea414140de5dae2223b00361a396177a9cb410ff61f20015ad"
unfolding sha256_hex hex sha256 absorb words_bytes pad chunks_exact pad_loop compress rounds round
    extend next_word chunk_words
digest_of_abc = refl

digest_of_nothing :
    sha256_hex [] ≡ codes "e3b0c44298fc1c149afbf4c8996fb92427ae41e4649b934ca495991b7852b855"
unfolding sha256_hex hex sha256 absorb words_bytes pad chunks_exact pad_loop compress rounds round
    extend next_word chunk_words
digest_of_nothing = refl

pad-IsPadded_example : IsPadded abc (pad abc)
pad-IsPadded_example = pad-IsPadded abc (omega arith)

sha256_hex-IsLowerHex_example : (length (sha256_hex abc) ≡ 64) × All IsLowerHex (sha256_hex abc)
sha256_hex-IsLowerHex_example = sha256_hex-IsLowerHex abc
