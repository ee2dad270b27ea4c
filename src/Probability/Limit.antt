-- ===== src/Probability/Limit.antt =====
-- The interpreter's recursion limit and `extract_probability` of src/oathcast/probability.py.
