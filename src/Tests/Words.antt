-- ===== src/Tests/Words.antt =====
-- Words and header text on an example.
use excel_youhua.Prelude.{◌≡◌, All}
use excel_youhua.Text.{split, join, collapse}
use excel_youhua.Text.Words.{IsWord, split-IsWord, split-join, split-collapse}

split-IsWord_example : All IsWord (split " unit  price ")
split-IsWord_example = split-IsWord " unit  price "

split-join_example : split (join (split " unit  price ")) ≡ split " unit  price "
split-join_example = split-join (split " unit  price ") (split-IsWord " unit  price ")

split-collapse_example : split (collapse " unit  price ") ≡ split " unit  price "
split-collapse_example = split-collapse " unit  price "
