-- ===== src/Direct/Recorded.antt =====
-- What is stored of a stream is what its chunks bring, and what is sent are the chunks.
use trajproxy.Base.{string_eq}
