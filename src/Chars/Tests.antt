-- ===== src/Chars/Tests.antt =====
-- The classes at a letter.
