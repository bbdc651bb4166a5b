-- ===== src/Tests/HashTests.antt =====
-- The test vectors of 32-bit FNV-1a, run on the model.
use rhbk_operator.Prelude.{◌≡◌, refl}
use rhbk_operator.Prelude.Outcome.{ok}
use rhbk_operator.Resources.Hash.{hash_bytes, utf_8, hash_text, get_hash}

hashes :
    (get_hash "" ≡ ok 0x811c9dc5)
    × (get_hash "a" ≡ ok 0xe40c292c)
    × (get_hash "foobar" ≡ ok 0xbf9cf968)
unfolding get_hash hash_text hash_bytes utf_8
hashes = (refl, refl, refl)
